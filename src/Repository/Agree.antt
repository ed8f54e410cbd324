-- ===== src/Repository/Agree.antt =====
-- The indexes against the services.
use Prim.Native.String.{String}
use emberengine.Prelude.{
  ◌≡◌, refl, sym, ap, ap₂, ◌∙◌, Bool, true, false, not, ◌&&◌, ◌||◌, none, some, arith, Bool-cases,
  Option-cases, inl, inr,
}
use emberengine.Prelude.Dict.{
  lookup, insert, erase, lookup-insert_same, lookup-insert_other, lookup-erase_same,
  lookup-erase_other, string_eq, beq_refl,
}
use emberengine.Repository.{ServiceInfo, Repository, holds, index_add, index_remove}
use emberengine.Repository.Index.{
  same, in_name, in_type, in_name-add, in_name-del, in_type-add, in_type-del,
}

abbrev pub has_name : String → ServiceInfo → Bool
has_name n info = same n info.dispatcher.pid.name

abbrev pub has_type : String → String → ServiceInfo → Bool
has_type t n info = same t info.dispatcher.pid.service_type && has_name n info

-- A service stands under its own uid, and an index holds just the services of its name, or of its type
-- and name.
pub record Agrees (r : Repository) : Type 0 where
  pub own :
      (u : String) (info : ServiceInfo)
      → lookup u r.map_pid ≡ some info
      → info.dispatcher.pid.service_uid ≡ u
  pub names : (n u : String) → in_name n u r.by_name ≡ holds (has_name n) (lookup u r.map_pid)
  pub types : (t n u : String) → in_type t n u r.by_type ≡ holds (has_type t n) (lookup u r.map_pid)

-- The services and the indexes are the same.
abbrev pub Tables : Repository → Repository → Type 0
Tables r r' = (r'.map_pid ≡ r.map_pid) × (r'.by_name ≡ r.by_name) × (r'.by_type ≡ r.by_type)

-- Two descriptions of a service with the same uid, name and type.
pub record Alike (a b : ServiceInfo) : Type 0 where
  pub same_uid : a.dispatcher.pid.service_uid ≡ b.dispatcher.pid.service_uid
  pub same_name : a.dispatcher.pid.name ≡ b.dispatcher.pid.name
  pub same_type : a.dispatcher.pid.service_type ≡ b.dispatcher.pid.service_type

module _ (r : Repository) (g : Agrees r) where
  -- A service is written anew.
  pub rewritten-Agrees :
      (u : String) (old info : ServiceInfo)
      → lookup u r.map_pid ≡ some old
      → Alike info old
      → Agrees (record r { map_pid = insert u info r.map_pid })
  rewritten-Agrees u old info e a =
      let other : (f : ServiceInfo → Bool) (v : String)
          → f old ≡ f info
          → holds f (lookup v r.map_pid) ≡ holds f (lookup v (insert u info r.map_pid)) =
        λ f v keeps. elim (Bool-cases (same v u)) [
          | inl t ↦
              ap (λ w. holds f (lookup w r.map_pid)) ((string_eq.beq_iff v u).0 t)
              ∙ ap (holds f) e
              ∙ keeps
              ∙ sym (ap (holds f) (lookup-insert_same u v info r.map_pid t))
          | inr s ↦ sym (ap (holds f) (lookup-insert_other u v info r.map_pid s))
        ] in
      record {
        own = λ v i found. elim (Bool-cases (same v u)) [
          | inl t ↦
              let there : some info ≡ some i =
                sym (lookup-insert_same u v info r.map_pid t) ∙ found in
              let it : info ≡ i = cc in
              ap (λ (j : ServiceInfo). j.dispatcher.pid.service_uid) (sym it)
              ∙ a.same_uid
              ∙ g.own u old e
              ∙ sym ((string_eq.beq_iff v u).0 t)
          | inr s ↦ g.own v i (sym (lookup-insert_other u v info r.map_pid s) ∙ found)
        ];
        names = λ n v. g.names n v ∙ other (has_name n) v (ap (same n) (sym a.same_name));
        types = λ t n v.
            g.types t n v
            ∙ other (has_type t n) v
                (ap₂ (λ x y. same t x && same n y) (sym a.same_type) (sym a.same_name));
      }

  -- A new service is written and put into the indexes.
  pub index_add-Agrees :
      (info : ServiceInfo)
      → lookup info.dispatcher.pid.service_uid r.map_pid ≡ none
      → Agrees (
          index_add info.dispatcher.pid
            (record r { map_pid = insert info.dispatcher.pid.service_uid info r.map_pid }))
  unfolding index_add
  index_add-Agrees info fresh =
      let p = info.dispatcher.pid in
      let m' = insert p.service_uid info r.map_pid in
      let there : (b : Bool) (f : ServiceInfo → Bool) (v : String)
          → b ≡ f info
          → (b && same v p.service_uid || holds f (lookup v r.map_pid)) ≡ holds f (lookup v m') =
        λ b f v keeps. elim (Bool-cases (same v p.service_uid)) [
          | inl t ↦
              let nothing : holds f (lookup v r.map_pid) ≡ false =
                ap (λ w. holds f (lookup w r.map_pid)) ((string_eq.beq_iff v p.service_uid).0 t)
                ∙ ap (holds f) fresh in
              let here : holds f (lookup v m') ≡ f info =
                ap (holds f) (lookup-insert_same p.service_uid v info r.map_pid t) in
              ground (arith, t, nothing, here, keeps)
          | inr s ↦
              let here : holds f (lookup v m') ≡ holds f (lookup v r.map_pid) =
                ap (holds f) (lookup-insert_other p.service_uid v info r.map_pid s) in
              ground (arith, s, here)
        ] in
      record {
        own = λ v i found. elim (Bool-cases (same v p.service_uid)) [
          | inl t ↦
              let got : some info ≡ some i =
                sym (lookup-insert_same p.service_uid v info r.map_pid t) ∙ found in
              let it : info ≡ i = cc in
              ap (λ (j : ServiceInfo). j.dispatcher.pid.service_uid) (sym it)
              ∙ sym ((string_eq.beq_iff v p.service_uid).0 t)
          | inr s ↦ g.own v i (sym (lookup-insert_other p.service_uid v info r.map_pid s) ∙ found)
        ];
        names = λ n v.
            in_name-add n v p.name p.service_uid r.by_name
            ∙ ap (λ b. same n p.name && same v p.service_uid || b) (g.names n v)
            ∙ there (same n p.name) (has_name n) v refl;
        types = λ t n v.
            in_type-add t n v p.service_type p.name p.service_uid r.by_type
            ∙ ap (λ b. same t p.service_type && (same n p.name && same v p.service_uid) || b)
                (g.types t n v)
            ∙ ground arith
            ∙ there (same t p.service_type && same n p.name) (has_type t n) v refl;
      }

  -- A service is taken out, and out of the indexes.
  pub index_remove-Agrees :
      (u : String) (info : ServiceInfo)
      → lookup u r.map_pid ≡ some info
      → Agrees (index_remove info.dispatcher.pid (record r { map_pid = erase u r.map_pid }))
  unfolding index_remove
  index_remove-Agrees u info e =
      let p = info.dispatcher.pid in
      let m' = erase u r.map_pid in
      let uid : p.service_uid ≡ u = g.own u info e in
      let gone : (b : Bool) (f : ServiceInfo → Bool) (v : String)
          → b ≡ f info
          → (not (b && same v p.service_uid) && holds f (lookup v r.map_pid))
            ≡ holds f (lookup v m') =
        λ b f v keeps. elim (Bool-cases (same v u)) [
          | inl t ↦
              let it : holds f (lookup v r.map_pid) ≡ f info =
                ap (λ w. holds f (lookup w r.map_pid)) ((string_eq.beq_iff v u).0 t)
                ∙ ap (holds f) e in
              let t' : same v p.service_uid ≡ true = ap (same v) uid ∙ t in
              let here : holds f (lookup v m') ≡ false =
                ap (holds f) (lookup-erase_same u v r.map_pid t) in
              ground (arith, t', it, here, keeps)
          | inr s ↦
              let s' : same v p.service_uid ≡ false = ap (same v) uid ∙ s in
              let here : holds f (lookup v m') ≡ holds f (lookup v r.map_pid) =
                ap (holds f) (lookup-erase_other u v r.map_pid s) in
              ground (arith, s', here)
        ] in
      let listed : in_name p.name u r.by_name ≡ true =
        g.names p.name u ∙ ap (holds (has_name p.name)) e ∙ beq_refl p.name in
      elim (Option-cases (lookup p.name r.by_name)) [
        | inl nowhere ↦ let empty : in_name p.name u r.by_name ≡ false = rw nowhere refl in cc
        | inr (set, found) ↦ rw found (record {
          own = λ v i there. elim (Bool-cases (same v u)) [
            | inl t ↦ cc (lookup-erase_same u v r.map_pid t)
            | inr s ↦ g.own v i (sym (lookup-erase_other u v r.map_pid s) ∙ there)
          ];
          names = λ n v.
              in_name-del n v p.name p.service_uid r.by_name
              ∙ ap (λ b. not (same n p.name && same v p.service_uid) && b) (g.names n v)
              ∙ gone (same n p.name) (has_name n) v refl;
          types = λ t n v.
              in_type-del t n v p.service_type p.name p.service_uid r.by_type
              ∙ ap
                  (λ b. not (same t p.service_type && (same n p.name && same v p.service_uid)) && b)
                  (g.types t n v)
              ∙ ground arith
              ∙ gone (same t p.service_type && same n p.name) (has_type t n) v refl;
        })
      ]
