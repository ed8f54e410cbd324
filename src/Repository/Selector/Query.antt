-- ===== src/Repository/Selector/Query.antt =====
-- Select against the services.
use Prim.Native.String.{String}
use emberengine.Prelude.{
  ℕ, ◌≡◌, refl, sym, ap, ap₂, ◌∙◌, subst, List, [], ◌∷◌, Bool, false, ◌&&◌, ◌||◌, Option, none,
  some, if◌then◌else◌, arith, Bool-cases, Option-cases, inl, inr,
}
use emberengine.Prelude.Dict.{Dict, lookup, string_eq}
use emberengine.Repository.{
  Dispatcher, ServiceInfo, Repository, UidSet, mem, holds, or_empty, is_selectable,
  is_selectable_info,
}
use emberengine.Repository.Index.{same, in_name}
use emberengine.Repository.Agree.{Tables, Agrees, has_name}
use emberengine.Repository.Selector.{
  select_by_service_uid, SelectParam, Selected, panic, not_found, buses, fits, collected,
  registered_or_tmp, select_named, select_from, select_loop, select,
}

abbrev pub uids_of : List Dispatcher → UidSet
uids_of [] = []
uids_of (d ∷ ds) = d.pid.service_uid ∷ uids_of ds

abbrev pub receivers : Selected → List Dispatcher
receivers panic = []
receivers not_found = []
receivers (buses cs) = cs

-- What a service has to be to be selected.
abbrev pub ready_and_fits : SelectParam → ServiceInfo → Bool
ready_and_fits param info = is_selectable_info info && fits param info.dispatcher.pid

pub select_by_service_uid-Tables :
    (uid : String) (now : ℕ) (r : Repository) → Tables r (select_by_service_uid uid now r).1
unfolding select_by_service_uid
select_by_service_uid-Tables uid now r = elim (Option-cases (lookup uid r.map_pid)) [
  | inr (info, e) ↦ rw e (refl, refl, refl)
  | inl e ↦ rw e (elim (Option-cases (lookup uid r.tmp_map_pid)) [
    | inl e' ↦ rw e' (refl, refl, refl)
    | inr (tmp, e') ↦ rw e' (refl, refl, refl)
  ])
]

-- The services stand under their own uids.
abbrev Own : Dict String ServiceInfo → Type 0
Own m =
    (u : String) (info : ServiceInfo) → lookup u m ≡ some info → info.dispatcher.pid.service_uid ≡ u

found_lem :
    (param : SelectParam) (u v : String) (info : ServiceInfo) (rest : List Dispatcher)
    → info.dispatcher.pid.service_uid ≡ v
    → mem u (
        uids_of (
          collected param
            (is_selectable_info info)
            (if info.dispatcher.pid.retired then none else some info.dispatcher)
            rest))
      ≡ (same u v && ready_and_fits param info || mem u (uids_of rest))
unfolding fits
found_lem param u v info rest uid =
    let here : same u info.dispatcher.pid.service_uid ≡ same u v = ap (same u) uid in
    ground (arith, here)

collected_lem :
    (param : SelectParam) (now : ℕ) (u v : String) (r : Repository) (rest : List Dispatcher)
    → Own r.map_pid
    → mem u (
        uids_of (
          collected param
            (is_selectable v (select_by_service_uid v now r).1)
            (select_by_service_uid v now r).0
            rest))
      ≡ (same u v && holds (ready_and_fits param) (lookup v r.map_pid) || mem u (uids_of rest))
unfolding select_by_service_uid is_selectable
collected_lem param now u v r rest own = elim (Option-cases (lookup v r.map_pid)) [
  | inl e ↦ rw e (elim (Option-cases (lookup v r.tmp_map_pid)) [
    | inl e' ↦ rw e' (ground arith)
    | inr (tmp, e') ↦ rw (e', e) (ground arith)
  ])
  | inr (info, e) ↦
      let got : select_by_service_uid v now r
          ≡ (if info.dispatcher.pid.retired then none else some info.dispatcher, r) =
        ap (registered_or_tmp v now r) e in
      ap
        (λ (p : Option Dispatcher × Repository).
          mem u (uids_of (collected param (is_selectable v p.1) p.0 rest)))
        got
      ∙ ap
          (λ o. mem u (
            uids_of (
              collected param (holds is_selectable_info o)
                (if info.dispatcher.pid.retired then none else some info.dispatcher) rest)))
          e
      ∙ found_lem param u v info rest (own v info e)
      ∙ ap (λ o. same u v && holds (ready_and_fits param) o || mem u (uids_of rest)) (sym e)
]

select_loop_lem :
    (param : SelectParam) (now : ℕ) (u : String) (m : Dict String ServiceInfo) (vs : UidSet)
    (r : Repository)
    → r.map_pid ≡ m
    → Own m
    → mem u (uids_of (select_loop param now vs r).0)
      ≡ (mem u vs && holds (ready_and_fits param) (lookup u m))
unfolding select_loop
select_loop_lem param now u m [] r e own = refl
select_loop_lem param now u m (v ∷ vs) r e own =
    let r' = (select_by_service_uid v now r).1 in
    let own' : Own r.map_pid = subst Own (sym e) own in
    let rest = (select_loop param now vs r').0 in
    let h = holds (ready_and_fits param) (lookup u m) in
    let before = mem u vs in
    collected_lem param now u v r rest own'
    ∙ ap₂
        (λ (d : Dict String ServiceInfo) b.
          same u v && holds (ready_and_fits param) (lookup v d) || b)
        e (select_loop_lem param now u m vs r' ((select_by_service_uid-Tables v now r).0 ∙ e) own)
    ∙ elim (Bool-cases (same u v)) [
      | inl t ↦
          let there : lookup v m ≡ lookup u m =
            ap (λ k. lookup k m) (sym ((string_eq.beq_iff u v).0 t)) in
          rw (t, there) (ground arith)
      | inr f ↦ rw f refl
    ]

holds-both :
    (f g : ServiceInfo → Bool) (o : Option ServiceInfo)
    → (holds f o && holds g o) ≡ holds (λ info. f info && g info) o
holds-both f g none = refl
holds-both f g (some info) = refl

pub mem-select :
    (sender n u : String) (param : SelectParam) (now : ℕ) (r : Repository)
    → Agrees r
    → param.service_name ≡ some n
    → mem u (uids_of (receivers (select sender param now r).0))
      ≡ holds (λ info. has_name n info && ready_and_fits param info) (lookup u r.map_pid)
unfolding select
mem-select sender n u param now r g named =
    let r' = (select_by_service_uid sender now r).1 in
    let kept = select_by_service_uid-Tables sender now r in
    let split = holds-both (has_name n) (ready_and_fits param) in
    let at_name : in_name n u r'.by_name ≡ holds (has_name n) (lookup u r.map_pid) =
      ap (in_name n u) kept.1 ∙ g.names n u in
    let answer =
      λ (o : Option UidSet). mem u (uids_of (receivers (select_from param now r' o).0)) in
    ap (λ o. mem u (uids_of (receivers (select_named param now r' o).0))) named
    ∙ elim (Option-cases (lookup n r'.by_name)) [
      | inl e ↦
          let nowhere : holds (has_name n) (lookup u r.map_pid) ≡ false =
            sym at_name ∙ ap (λ o. mem u (or_empty o)) e in
          ap answer e
          ∙ ap (λ b. b && holds (ready_and_fits param) (lookup u r.map_pid)) (sym nowhere)
          ∙ split (lookup u r.map_pid)
      | inr (vs, e) ↦
          ap answer e
          ∙ select_loop_lem param now u r.map_pid vs r' kept.0 g.own
          ∙ ap (λ b. b && holds (ready_and_fits param) (lookup u r.map_pid))
              (sym (ap (λ o. mem u (or_empty o)) e) ∙ at_name)
          ∙ split (lookup u r.map_pid)
    ]
