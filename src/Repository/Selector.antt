-- ===== src/Repository/Selector.antt =====
-- engine/pkg/cluster/endpoints/repository/selector.go: the services behind a name, and the temporary
-- dispatchers with their times. `now` is the clock, in nanoseconds; a message bus is its receiver.
pub mod Query
pub mod Wanted
use Prim.Native.String.{String}
use emberengine.Prelude.{
  ℕ, ◌-◌, ◌*◌, List, [], ◌∷◌, Bool, true, false, not, ◌&&◌, Option, none, some, ltb, ◌==◌,
  if◌then◌else◌,
}
use emberengine.Prelude.Int.{ℤ, eqb_ℤ}
use emberengine.Prelude.Dict.{Dict, lookup, insert, erase, string_eq}
use emberengine.Repository.{
  Pid, Dispatcher, TmpInfo, ServiceInfo, Repository, UidSet, close, is_selectable,
}

abbrev pub touched : String → ℕ → Repository → Option TmpInfo → Option Dispatcher × Repository
touched uid now r none = (none, r)
touched uid now r (some tmp) = (
  some tmp.tmp_dispatcher,
  record r { tmp_map_pid = insert uid (record tmp { latest = now }) r.tmp_map_pid },
)

abbrev pub registered_or_tmp :
    String → ℕ → Repository → Option ServiceInfo → Option Dispatcher × Repository
registered_or_tmp uid now r (some info) =
    (if info.dispatcher.pid.retired then none else some info.dispatcher, r)
registered_or_tmp uid now r none = touched uid now r (lookup uid r.tmp_map_pid)

-- `SelectByServiceUid`
pub select_by_service_uid : String → ℕ → Repository → Option Dispatcher × Repository
select_by_service_uid uid now r = registered_or_tmp uid now r (lookup uid r.map_pid)

-- `AddTmp` behind its `LoadOrStore`.
abbrev pub tmp_entry : Dispatcher → ℕ → Repository → Option TmpInfo → Dispatcher × Repository
tmp_entry d now r none = (
  d,
  record r {
    tmp_map_pid =
        insert d.pid.service_uid (record { tmp_dispatcher = d; latest = now }) r.tmp_map_pid;
  },
)
tmp_entry d now r (some old) =
    let r' = record r {
      tmp_map_pid = insert d.pid.service_uid (record old { latest = now }) r.tmp_map_pid;
    } in
    (old.tmp_dispatcher, if old.tmp_dispatcher.id == d.id then r' else close d r')

-- `AddTmp`
unfoldable pub add_tmp : Dispatcher → ℕ → Repository → Dispatcher × Repository
add_tmp d now r = tmp_entry d now r (lookup d.pid.service_uid r.tmp_map_pid)

abbrev pub five_minutes : ℕ
five_minutes = 5 * 60 * 1_000_000_000

-- A round of `tick` with the strategy, over the entries.
unfoldable pub tick_loop : (TmpInfo → Bool) → Dict String TmpInfo → Repository → Repository
tick_loop strategy [] r = r
tick_loop strategy ((uid, tmp) ∷ rest) r =
    let r' = close tmp.tmp_dispatcher (record r { tmp_map_pid = erase uid r.tmp_map_pid }) in
    tick_loop strategy rest (if strategy tmp then r' else r)

-- `defaultStrategy`
pub default_strategy : ℕ → TmpInfo → Bool
default_strategy now tmp = ltb five_minutes (now - tmp.latest)

unfoldable pub tick : (TmpInfo → Bool) → Repository → Repository
tick strategy r = tick_loop strategy r.tmp_map_pid r

-- A name that is left out is a nil pointer.
pub record SelectParam : Type 0 where
  pub service_name : Option String
  pub wanted_partition : Option ℤ
  pub wanted_id : Option String
  pub is_slaver : Bool

pub data Selected : Type 0 where
  panic not_found : Selected
  buses : List Dispatcher → Selected

abbrev pub unset_or {ℓ} : {A : Type ℓ} → (A → Bool) → Option A → Bool
unset_or f none = true
unset_or f (some a) = f a

abbrev pub bool_eq : Bool → Bool → Bool
bool_eq true b = b
bool_eq false b = not b

-- What `Select` asks of a PID.
pub fits : SelectParam → Pid → Bool
fits param p =
    not p.retired
    && unset_or (eqb_ℤ p.partition) param.wanted_partition
    && unset_or (string_eq.beq p.service_id) param.wanted_id
    && bool_eq p.is_master (not param.is_slaver)

abbrev pub collected : SelectParam → Bool → Option Dispatcher → List Dispatcher → List Dispatcher
collected param ready none rest = rest
collected param ready (some c) rest = if ready && fits param c.pid then c ∷ rest else rest

-- The loop of `Select` over the uids of a name.
pub select_loop : SelectParam → ℕ → UidSet → Repository → List Dispatcher × Repository
select_loop param now [] r = ([], r)
select_loop param now (uid ∷ uids) r =
    let (c, r') = select_by_service_uid uid now r in
    let (rest, r'') = select_loop param now uids r' in
    (collected param (is_selectable uid r') c rest, r'')

abbrev pub as_buses : List Dispatcher × Repository → Selected × Repository
as_buses (cs, r) = (buses cs, r)

abbrev pub select_from : SelectParam → ℕ → Repository → Option UidSet → Selected × Repository
select_from param now r none = (not_found, r)
select_from param now r (some uids) = as_buses (select_loop param now uids r)

abbrev pub select_named : SelectParam → ℕ → Repository → Option String → Selected × Repository
select_named param now r none = (panic, r)
select_named param now r (some n) = select_from param now r (lookup n r.by_name)

-- `Select`, by a sender of the given uid.
pub select : String → SelectParam → ℕ → Repository → Selected × Repository
select sender param now r =
    select_named param now (select_by_service_uid sender now r).1 param.service_name
