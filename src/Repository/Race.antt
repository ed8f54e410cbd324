-- ===== src/Repository/Race.antt =====
-- An AddWithMeta that runs between the two halves of a Remove.
use Prim.Native.String.{String}
use emberengine.Prelude.{
  ◌≡◌, refl, sym, ap, ◌∙◌, ◌∷◌, false, Option, none, some, Option-cases, inl, inr,
}
use emberengine.Prelude.Int.{ℤ}
use emberengine.Prelude.Dict.{
  lookup, erase, lookup-insert_same, lookup-erase_same, string_eq, beq_refl,
}
use emberengine.Repository.{
  Pid, Dispatcher, ServiceInfo, Repository, add_start, add_with_meta, index_add, index_remove,
  index_remove_from, remove_start, unindex_if, or_empty, mem,
}
use emberengine.Repository.Index.{same, in_name, in_name-del}

abbrev pub then_add :
    String → Dispatcher → ℤ → ℤ → Repository × Option Pid → Repository × Option Pid
then_add key d status visibility (r, p) = (add_with_meta key d status visibility r, p)

-- Remove of `key`, with an AddWithMeta before it takes the lock of the indexes.
abbrev pub overtaken : String → Dispatcher → ℤ → ℤ → Repository → Repository
overtaken key d status visibility r =
    unindex_if (then_add key d status visibility (remove_start key r))

index_remove_map : (p : Pid) (r : Repository) → (index_remove p r).map_pid ≡ r.map_pid
unfolding index_remove
index_remove_map p r = elim (Option-cases (lookup p.name r.by_name)) [
  | inl e ↦ rw e refl
  | inr (s, e) ↦ rw e refl
]

index_remove_name :
    (p : Pid) (r : Repository) → in_name p.name p.service_uid (index_remove p r).by_name ≡ false
unfolding index_remove
index_remove_name p r = elim (Option-cases (lookup p.name r.by_name)) [
  | inl e ↦
      ap (λ o. in_name p.name p.service_uid (index_remove_from p r o).by_name) e
      ∙ ap (λ o. mem p.service_uid (or_empty o)) e
  | inr (s, e) ↦
      ap (λ o. in_name p.name p.service_uid (index_remove_from p r o).by_name) e
      ∙ in_name-del p.name p.service_uid p.name p.service_uid r.by_name
      ∙ rw (beq_refl p.name, beq_refl p.service_uid) refl
]

added_map :
    (key : String) (d : Dispatcher) (status visibility : ℤ) (r : Repository)
    → lookup d.pid.service_uid r.map_pid ≡ none
    → lookup d.pid.service_uid (add_with_meta key d status visibility r).map_pid
      ≡ some (record { dispatcher = d; status = status; visibility = visibility })
unfolding add_with_meta add_start index_add
added_map key d status visibility r e = rw e (
    lookup-insert_same d.pid.service_uid d.pid.service_uid
      (record { dispatcher = d; status = status; visibility = visibility }) r.map_pid
      (beq_refl d.pid.service_uid))

-- When an AddWithMeta of a dispatcher with the uid of a service runs between the two halves of the
-- Remove of that service, the new dispatcher stays registered, and the index by name does not hold its
-- uid under the name of the old one, even where the new one has the same name.
pub overtaken_unlisted :
    (key uid : String) (d : Dispatcher) (status visibility : ℤ) (old : ServiceInfo) (r : Repository)
    → same key "" ≡ false
    → lookup key r.key_map ≡ some uid
    → lookup uid r.map_pid ≡ some old
    → old.dispatcher.pid.service_uid ≡ uid
    → d.pid.service_uid ≡ uid
    → let r' = overtaken key d status visibility r in
      (lookup uid r'.map_pid
        ≡ some (record { dispatcher = d; status = status; visibility = visibility }))
      × (in_name old.dispatcher.pid.name uid r'.by_name ≡ false)
unfolding remove_start
overtaken_unlisted key uid d status visibility old r named k m own is =
    let p = old.dispatcher.pid in
    let r1 = record r {
      key_map = erase key r.key_map;
      map_pid = erase uid r.map_pid;
      closed = old.dispatcher.id ∷ r.closed;
    } in
    let started : remove_start key r ≡ (r1, some p) = rw (named, k, m) refl in
    let r2 = add_with_meta key d status visibility r1 in
    let ends : overtaken key d status visibility r ≡ index_remove p r2 =
      ap (λ s. unindex_if (then_add key d status visibility s)) started in
    let free : lookup d.pid.service_uid r1.map_pid ≡ none =
      ap (λ u. lookup u r1.map_pid) is ∙ lookup-erase_same uid uid r.map_pid (beq_refl uid) in
    (
      ap (λ (s : Repository). lookup uid s.map_pid) ends
          ∙ ap (lookup uid) (index_remove_map p r2)
          ∙ ap (λ u. lookup u r2.map_pid) (sym is)
          ∙ added_map key d status visibility r1 free,
      ap (λ (s : Repository). in_name p.name uid s.by_name) ends
          ∙ ap (λ u. in_name p.name u (index_remove p r2).by_name) (sym own)
          ∙ index_remove_name p r2,
    )
