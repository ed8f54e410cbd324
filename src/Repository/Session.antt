-- ===== src/Repository/Session.antt =====
-- The repository through sequences of calls.
use Prim.Native.String.{String}
use emberengine.Prelude.{
  ℕ, refl, sym, ap, ◌∙◌, List, [], ◌∷◌, Bool, none, ◌==◌, if◌then◌else◌, Bool-cases, Option-cases,
  inl, inr,
}
use emberengine.Prelude.Int.{ℤ}
use emberengine.Prelude.Dict.{Dict, lookup, insert, erase, string_eq}
use emberengine.Repository.{
  Dispatcher, ServiceInfo, TmpInfo, Repository, new_repository, close, refreshed, add_start,
  add_with_meta, remove_start, remove, update_status, update_visibility, updated,
}
use emberengine.Repository.Agree.{
  Tables, Agrees, Alike, rewritten-Agrees, index_add-Agrees, index_remove-Agrees,
}
use emberengine.Repository.Selector.{add_tmp, tmp_entry, select_by_service_uid, tick, tick_loop}
use emberengine.Repository.Selector.Query.{select_by_service_uid-Tables}

pub data Call : Type 0 where
  adds : String → Dispatcher → ℤ → ℤ → Call
  removes : String → Call
  sets_status sets_visibility : String → ℤ → Call
  adds_tmp : Dispatcher → ℕ → Call
  looks_up : String → ℕ → Call
  ticks : (TmpInfo → Bool) → Call

abbrev pub call : Call → Repository → Repository
call (adds key d status visibility) r = add_with_meta key d status visibility r
call (removes key) r = remove key r
call (sets_status uid status) r = (update_status uid status r).1
call (sets_visibility uid visibility) r = (update_visibility uid visibility r).1
call (adds_tmp d now) r = (add_tmp d now r).1
call (looks_up uid now) r = (select_by_service_uid uid now r).1
call (ticks strategy) r = tick strategy r

abbrev pub run : List Call → Repository → Repository
run [] r = r
run (c ∷ cs) r = run cs (call c r)

kept-Agrees : (r r' : Repository) → Tables r r' → Agrees r → Agrees r'
kept-Agrees r r' t g = record {
  own = λ u info e. g.own u info (ap (lookup u) (sym t.0) ∙ e);
  names = λ n u. rw (t.0, t.1) (g.names n u);
  types = λ t' n u. rw (t.0, t.2) (g.types t' n u);
}

add_with_meta-Agrees :
    (key : String) (d : Dispatcher) (status visibility : ℤ) (r : Repository)
    → Agrees r
    → Agrees (add_with_meta key d status visibility r)
unfolding add_with_meta add_start
add_with_meta-Agrees key d status visibility r g =
    let uid = d.pid.service_uid in
    let keyed = record r {
      key_map = insert (if string_eq.beq key "" then uid else key) uid r.key_map;
    } in
    let k = kept-Agrees r keyed (refl, refl, refl) g in
    elim (Option-cases (lookup uid r.map_pid)) [
      | inl e ↦ rw e (
          index_add-Agrees keyed k
            (record { dispatcher = d; status = status; visibility = visibility }) e)
      | inr (old, e) ↦
          let info = refreshed d status visibility old in
          let r' = record keyed { map_pid = insert uid info r.map_pid } in
          let w =
            rewritten-Agrees keyed k uid old info e
              (record { same_uid = refl; same_name = refl; same_type = refl }) in
          rw e (elim (Bool-cases (d.id == old.dispatcher.id)) [
            | inl t ↦ rw t w
            | inr f ↦ rw f (kept-Agrees r' (close d r') (refl, refl, refl) w)
          ])
    ]

remove-Agrees : (key : String) (r : Repository) → Agrees r → Agrees (remove key r)
unfolding remove remove_start
remove-Agrees key r g = elim (Bool-cases (string_eq.beq key "")) [
  | inl t ↦ rw t g
  | inr f ↦ rw f (elim (Option-cases (lookup key r.key_map)) [
    | inl e ↦ rw e g
    | inr (uid, e) ↦ rw e (elim (Option-cases (lookup uid r.map_pid)) [
      | inl e' ↦
          rw e' (kept-Agrees r (record r { key_map = erase key r.key_map }) (refl, refl, refl) g)
      | inr (info, e') ↦
          let r' = record r {
            key_map = erase key r.key_map;
            closed = info.dispatcher.id ∷ r.closed;
          } in
          rw e' (index_remove-Agrees r' (kept-Agrees r r' (refl, refl, refl) g) uid info e')
    ])
  ])
]

updated-Agrees :
    (uid : String) (f : ServiceInfo → ServiceInfo) (r : Repository)
    → ((info : ServiceInfo) → Alike (f info) info)
    → Agrees r
    → Agrees (updated uid f r (lookup uid r.map_pid)).1
updated-Agrees uid f r alike g = elim (Option-cases (lookup uid r.map_pid)) [
  | inl e ↦ rw e g
  | inr (info, e) ↦ rw e (rewritten-Agrees r g uid info (f info) e (alike info))
]

tick_loop-Agrees :
    (strategy : TmpInfo → Bool) (entries : Dict String TmpInfo) (r : Repository)
    → Agrees r
    → Agrees (tick_loop strategy entries r)
unfolding tick_loop
tick_loop-Agrees strategy [] r g = g
tick_loop-Agrees strategy ((uid, tmp) ∷ rest) r g =
    let r' = close tmp.tmp_dispatcher (record r { tmp_map_pid = erase uid r.tmp_map_pid }) in
    elim (Bool-cases (strategy tmp)) [
      | inl t ↦ rw t (tick_loop-Agrees strategy rest r' (kept-Agrees r r' (refl, refl, refl) g))
      | inr f ↦ rw f (tick_loop-Agrees strategy rest r g)
    ]

add_tmp-Agrees : (d : Dispatcher) (now : ℕ) (r : Repository) → Agrees r → Agrees (add_tmp d now r).1
unfolding add_tmp
add_tmp-Agrees d now r g = elim (Option-cases (lookup d.pid.service_uid r.tmp_map_pid)) [
  | inl e ↦ rw e (kept-Agrees r (tmp_entry d now r none).1 (refl, refl, refl) g)
  | inr (old, e) ↦ rw e (elim (Bool-cases (old.tmp_dispatcher.id == d.id)) [
    | inl t ↦
        let r' = record r {
          tmp_map_pid = insert d.pid.service_uid (record old { latest = now }) r.tmp_map_pid;
        } in
        rw t (kept-Agrees r r' (refl, refl, refl) g)
    | inr f ↦
        let r' = record r {
          tmp_map_pid = insert d.pid.service_uid (record old { latest = now }) r.tmp_map_pid;
          closed = d.id ∷ r.closed;
        } in
        rw f (kept-Agrees r r' (refl, refl, refl) g)
  ])
]

look_up-Agrees :
    (uid : String) (now : ℕ) (r : Repository)
    → Agrees r
    → Agrees (select_by_service_uid uid now r).1
look_up-Agrees uid now r g =
    kept-Agrees r (select_by_service_uid uid now r).1 (select_by_service_uid-Tables uid now r) g

call-Agrees : (c : Call) (r : Repository) → Agrees r → Agrees (call c r)
unfolding update_status update_visibility tick
call-Agrees (adds key d status visibility) r g = add_with_meta-Agrees key d status visibility r g
call-Agrees (removes key) r g = remove-Agrees key r g
call-Agrees (sets_status uid status) r g =
    updated-Agrees uid (λ info. record info { status = status }) r
      (λ info. record { same_uid = refl; same_name = refl; same_type = refl }) g
call-Agrees (sets_visibility uid visibility) r g =
    updated-Agrees uid (λ info. record info { visibility = visibility }) r
      (λ info. record { same_uid = refl; same_name = refl; same_type = refl }) g
call-Agrees (adds_tmp d now) r g = add_tmp-Agrees d now r g
call-Agrees (looks_up uid now) r g = look_up-Agrees uid now r g
call-Agrees (ticks strategy) r g = tick_loop-Agrees strategy r.tmp_map_pid r g

run_from-Agrees : (cs : List Call) (r : Repository) → Agrees r → Agrees (run cs r)
run_from-Agrees [] r g = g
run_from-Agrees (c ∷ cs) r g = run_from-Agrees cs (call c r) (call-Agrees c r g)

-- After any sequence of AddWithMeta, Remove, UpdateStatus, UpdateVisibility, AddTmp, look-ups and
-- rounds of the clearing, each running to its end, every service stands under its own uid, and the
-- indexes by name and by type and name hold just the uids of the services that have them.
pub run-Agrees : (cs : List Call) → Agrees (run cs new_repository)
run-Agrees cs =
    run_from-Agrees cs new_repository
      (record { own = λ u info e. cc; names = λ n u. refl; types = λ t n u. refl })
