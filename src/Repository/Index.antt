-- ===== src/Repository/Index.antt =====
-- What the indexes hold, after an entry is added or taken out.
use Prim.Native.String.{String}
use emberengine.Prelude.{
  ◌≡◌, refl, sym, ap, ◌∙◌, List, [], ◌∷◌, Bool, not, ◌&&◌, ◌||◌, none, some, if◌then◌else◌, arith,
  Bool-cases, Option-cases, inl, inr,
}
use emberengine.Prelude.Dict.{Dict, lookup, insert, lookup-insert, lookup-erase, string_eq}
use emberengine.Repository.{
  UidSet, or_empty, mem, set_add, set_del, name_add, name_del, put_or_erase, type_del_from,
}

abbrev pub same : String → String → Bool
same = string_eq.beq

abbrev pub in_name : String → String → Dict String UidSet → Bool
in_name n u m = mem u (or_empty (lookup n m))

abbrev pub in_type : String → String → String → Dict String (Dict String UidSet) → Bool
in_type t n u m = in_name n u (or_empty (lookup t m))

mem-set_add : (u v : String) (s : UidSet) → mem u (set_add v s) ≡ (same u v || mem u s)
unfolding set_add
mem-set_add u v s = elim (Bool-cases (mem v s)) [
  | inl t ↦ rw t (elim (Bool-cases (same u v)) [
    | inl e ↦ rw e (ap (λ w. mem w s) ((string_eq.beq_iff u v).0 e) ∙ t)
    | inr e ↦ rw e refl
  ])
  | inr f ↦ rw f refl
]

mem-set_del : (u v : String) (s : UidSet) → mem u (set_del v s) ≡ (not (same u v) && mem u s)
unfolding set_del
mem-set_del u v [] = ground arith
mem-set_del u v (w ∷ ws) =
    ground (
      arith,
      string_eq.beq_iff u v,
      string_eq.beq_iff v w,
      string_eq.beq_iff u w,
      mem-set_del u v ws,
    )

pub in_name-add :
    (n u n' u' : String) (m : Dict String UidSet)
    → in_name n u (name_add n' u' m) ≡ (same n n' && same u u' || in_name n u m)
unfolding name_add
in_name-add n u n' u' m =
    let s' = set_add u' (or_empty (lookup n' m)) in
    ap (λ o. mem u (or_empty o)) (lookup-insert n' n s' m) ∙ elim (Bool-cases (same n n')) [
      | inl e ↦ rw e (
          mem-set_add u u' (or_empty (lookup n' m))
          ∙ ap (λ k. same u u' || in_name k u m) (sym ((string_eq.beq_iff n n').0 e)))
      | inr f ↦ rw f refl
    ]

put_or_erase_lem :
    {A : Type 0} (k j : String) (l : List A) (m : Dict String (List A))
    → or_empty (lookup j (put_or_erase k l m)) ≡ (if same j k then l else or_empty (lookup j m))
put_or_erase_lem k j [] m = ap or_empty (lookup-erase k j m) ∙ ground arith
put_or_erase_lem k j (x ∷ xs) m = ap or_empty (lookup-insert k j (x ∷ xs) m) ∙ ground arith

pub in_name-del :
    (n u n' u' : String) (m : Dict String UidSet)
    → in_name n u (name_del n' u' m) ≡ (not (same n n' && same u u') && in_name n u m)
unfolding name_del
in_name-del n u n' u' m = elim (Option-cases (lookup n' m)) [
  | inl e ↦ rw e (elim (Bool-cases (same n n')) [
    | inl t ↦
        let nothing : lookup n m ≡ none = ap (λ k. lookup k m) ((string_eq.beq_iff n n').0 t) ∙ e in
        rw (t, nothing) (ground arith)
    | inr f ↦ rw f refl
  ])
  | inr (s, e) ↦ rw e (
      ap (mem u) (put_or_erase_lem n' n (set_del u' s) m) ∙ elim (Bool-cases (same n n')) [
        | inl t ↦
            let there : lookup n m ≡ some s =
              ap (λ k. lookup k m) ((string_eq.beq_iff n n').0 t) ∙ e in
            rw (t, there) (mem-set_del u u' s)
        | inr f ↦ rw f refl
      ])
]

pub in_type-add :
    (t n u t' n' u' : String) (m : Dict String (Dict String UidSet))
    → in_type t n u (insert t' (name_add n' u' (or_empty (lookup t' m))) m)
      ≡ (same t t' && (same n n' && same u u') || in_type t n u m)
in_type-add t n u t' n' u' m =
    ap (λ o. in_name n u (or_empty o))
      (lookup-insert t' t (name_add n' u' (or_empty (lookup t' m))) m)
    ∙ elim (Bool-cases (same t t')) [
      | inl e ↦ rw e (
          in_name-add n u n' u' (or_empty (lookup t' m))
          ∙ ap (λ k. same n n' && same u u' || in_type k n u m)
              (sym ((string_eq.beq_iff t t').0 e)))
      | inr f ↦ rw f refl
    ]

pub in_type-del :
    (t n u t' n' u' : String) (m : Dict String (Dict String UidSet))
    → in_type t n u (type_del_from t' n' u' m (lookup t' m))
      ≡ (not (same t t' && (same n n' && same u u')) && in_type t n u m)
in_type-del t n u t' n' u' m = elim (Option-cases (lookup t' m)) [
  | inl e ↦ rw e (elim (Bool-cases (same t t')) [
    | inl h ↦
        let nothing : lookup t m ≡ none = ap (λ k. lookup k m) ((string_eq.beq_iff t t').0 h) ∙ e in
        rw (h, nothing) (ground arith)
    | inr f ↦ rw f refl
  ])
  | inr (s, e) ↦ rw e (
      ap (in_name n u) (put_or_erase_lem t' t (name_del n' u' s) m)
      ∙ elim (Bool-cases (same t t')) [
        | inl h ↦
            let there : lookup t m ≡ some s =
              ap (λ k. lookup k m) ((string_eq.beq_iff t t').0 h) ∙ e in
            rw (h, there) (in_name-del n u n' u' s)
        | inr f ↦ rw f refl
      ])
]
