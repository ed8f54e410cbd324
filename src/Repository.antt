-- ===== src/Repository.antt =====
-- The service repository of engine/pkg/cluster/endpoints/repository/repository.go and its queries in
-- selector.go. A set of uids is a list, a Go map an association list, and a method one function on the
-- state; AddWithMeta and Remove are also split before they take the lock of the indexes. A dispatcher
-- is not nil (AddWithMeta reads its PID at once), so the branches for one that is nil are left out.
pub mod Index
pub mod Agree
pub mod Session
pub mod Selector
pub mod Race
mod Tests
use Prim.Native.String.{String}
use emberengine.Prelude.{
  ℕ, List, [], ◌∷◌, Bool, true, false, ◌||◌, Option, none, some, ◌==◌, if◌then◌else◌,
}
use emberengine.Prelude.Int.{ℤ, pos, eqb_ℤ}
use emberengine.Prelude.Dict.{Dict, lookup, insert, erase, string_eq}

-- The fields of an `actor.PID` that are read here; `retired` is `actor.IsRetired`.
pub record Pid : Type 0 where
  pub service_uid : String
  pub name : String
  pub service_type : String
  pub service_id : String
  pub partition : ℤ
  pub is_master : Bool
  pub retired : Bool

-- A dispatcher, by its identity, with the PID that it points to.
pub record Dispatcher : Type 0 where
  pub id : ℕ
  pub pid : Pid

pub record TmpInfo : Type 0 where
  pub tmp_dispatcher : Dispatcher
  pub latest : ℕ

pub record ServiceInfo : Type 0 where
  pub dispatcher : Dispatcher
  pub status : ℤ
  pub visibility : ℤ

abbrev pub svc_status_ready : ℤ
svc_status_ready = pos 4

-- `ServiceVisibilityCluster` and `ServiceVisibilityNode`
abbrev pub visibility_cluster : ℤ
visibility_cluster = pos 1

abbrev pub visibility_node : ℤ
visibility_node = pos 2

abbrev pub UidSet : Type 0
UidSet = List String

pub record Repository : Type 0 where
  pub key_map : Dict String String
  pub map_pid : Dict String ServiceInfo
  pub tmp_map_pid : Dict String TmpInfo
  pub by_name : Dict String UidSet
  pub by_type : Dict String (Dict String UidSet)
  pub closed : List ℕ

-- `NewRepository`
abbrev pub new_repository : Repository
new_repository = record {
  key_map = [];
  map_pid = [];
  tmp_map_pid = [];
  by_name = [];
  by_type = [];
  closed = [];
}

abbrev pub close : Dispatcher → Repository → Repository
close d r = record r { closed = d.id ∷ r.closed }

abbrev pub or_empty : {A : Type 0} → Option (List A) → List A
or_empty none = []
or_empty (some l) = l

abbrev pub is_nil : {A : Type 0} → List A → Bool
is_nil [] = true
is_nil (x ∷ xs) = false

abbrev pub mem : String → UidSet → Bool
mem u [] = false
mem u (v ∷ vs) = string_eq.beq u v || mem u vs

pub set_add : String → UidSet → UidSet
set_add u s = if mem u s then s else u ∷ s

pub set_del : String → UidSet → UidSet
set_del u [] = []
set_del u (v ∷ vs) = let rest = set_del u vs in if string_eq.beq u v then rest else v ∷ rest

-- `nameMap[serviceUid] = struct{}{}`, with the set made where there is none.
pub name_add : String → String → Dict String UidSet → Dict String UidSet
name_add n u m = insert n (set_add u (or_empty (lookup n m))) m

abbrev pub put_or_erase :
    {A : Type 0} → String → List A → Dict String (List A) → Dict String (List A)
put_or_erase k l m = if is_nil l then erase k m else insert k l m

abbrev pub name_del_from : String → String → Dict String UidSet → Option UidSet → Dict String UidSet
name_del_from n u m none = m
name_del_from n u m (some s) = put_or_erase n (set_del u s) m

pub name_del : String → String → Dict String UidSet → Dict String UidSet
name_del n u m = name_del_from n u m (lookup n m)

-- `indexAdd`
pub index_add : Pid → Repository → Repository
index_add p r = record r {
  by_name = name_add p.name p.service_uid r.by_name;
  by_type =
      insert p.service_type
        (name_add p.name p.service_uid (or_empty (lookup p.service_type r.by_type))) r.by_type;
}

abbrev pub type_del_from :
    String
    → String
    → String
    → Dict String (Dict String UidSet)
    → Option (Dict String UidSet)
    → Dict String (Dict String UidSet)
type_del_from t n u m none = m
type_del_from t n u m (some names) = put_or_erase t (name_del n u names) m

abbrev pub index_remove_from : Pid → Repository → Option UidSet → Repository
index_remove_from p r none = r
index_remove_from p r (some s) = record r {
  by_name = name_del p.name p.service_uid r.by_name;
  by_type =
      type_del_from p.service_type p.name p.service_uid r.by_type (lookup p.service_type r.by_type);
}

-- `indexRemove`
pub index_remove : Pid → Repository → Repository
index_remove p r = index_remove_from p r (lookup p.name r.by_name)

-- `syncPID`, `visibility.Store` and `status.Store` of the entry that is there.
abbrev pub refreshed : Dispatcher → ℤ → ℤ → ServiceInfo → ServiceInfo
refreshed d status visibility old = record old {
  dispatcher = record {
    id = old.dispatcher.id;
    pid = record (old.dispatcher.pid) { is_master = d.pid.is_master };
  };
  status = status;
  visibility = visibility;
}

-- `AddWithMeta` up to the indexes: the repository, and the PID that is to be indexed.
abbrev pub add_entry :
    Dispatcher → ℤ → ℤ → Repository → Option ServiceInfo → Repository × Option Pid
add_entry d status visibility r none = (
  record r {
    map_pid =
        insert d.pid.service_uid
          (record { dispatcher = d; status = status; visibility = visibility }) r.map_pid;
  },
  some d.pid,
)
add_entry d status visibility r (some old) =
    let r' = record r {
      map_pid = insert d.pid.service_uid (refreshed d status visibility old) r.map_pid;
    } in
    (if d.id == old.dispatcher.id then r' else close d r', none)

pub add_start : String → Dispatcher → ℤ → ℤ → Repository → Repository × Option Pid
add_start key d status visibility r =
    let uid = d.pid.service_uid in
    let key' = if string_eq.beq key "" then uid else key in
    add_entry d status visibility (record r { key_map = insert key' uid r.key_map })
      (lookup uid r.map_pid)

abbrev pub index_if : Repository × Option Pid → Repository
index_if (r, none) = r
index_if (r, some p) = index_add p r

-- `AddWithMeta`; `Add` is the one with the status ready and the visibility cluster.
pub add_with_meta : String → Dispatcher → ℤ → ℤ → Repository → Repository
add_with_meta key d status visibility r = index_if (add_start key d status visibility r)

abbrev pub remove_entry : String → Repository → Option ServiceInfo → Repository × Option Pid
remove_entry uid r none = (r, none)
remove_entry uid r (some info) =
    (close info.dispatcher (record r { map_pid = erase uid r.map_pid }), some info.dispatcher.pid)

abbrev pub remove_uid : String → Repository → Option String → Repository × Option Pid
remove_uid key r none = (r, none)
remove_uid key r (some uid) =
    remove_entry uid (record r { key_map = erase key r.key_map }) (lookup uid r.map_pid)

-- `Remove` up to the indexes: the repository, and the PID that is to be taken out of them.
pub remove_start : String → Repository → Repository × Option Pid
remove_start key r =
    if string_eq.beq key "" then (r, none) else remove_uid key r (lookup key r.key_map)

abbrev pub unindex_if : Repository × Option Pid → Repository
unindex_if (r, none) = r
unindex_if (r, some p) = index_remove p r

-- `Remove`
pub remove : String → Repository → Repository
remove key r = unindex_if (remove_start key r)

abbrev pub updated :
    String → (ServiceInfo → ServiceInfo) → Repository → Option ServiceInfo → Bool × Repository
updated uid f r none = (false, r)
updated uid f r (some info) = (true, record r { map_pid = insert uid (f info) r.map_pid })

-- `UpdateStatus`
pub update_status : String → ℤ → Repository → Bool × Repository
update_status uid status r =
    updated uid (λ info. record info { status = status }) r (lookup uid r.map_pid)

-- `UpdateVisibility`
pub update_visibility : String → ℤ → Repository → Bool × Repository
update_visibility uid visibility r =
    updated uid (λ info. record info { visibility = visibility }) r (lookup uid r.map_pid)

abbrev pub is_selectable_info : ServiceInfo → Bool
is_selectable_info info = eqb_ℤ info.status svc_status_ready

abbrev pub holds : (ServiceInfo → Bool) → Option ServiceInfo → Bool
holds f none = false
holds f (some info) = f info

-- `IsSelectable`
pub is_selectable : String → Repository → Bool
is_selectable uid r = holds is_selectable_info (lookup uid r.map_pid)

-- `IsRemoteCallable`
pub is_remote_callable : String → Repository → Bool
is_remote_callable uid r =
    holds
      (λ info. eqb_ℤ info.visibility visibility_cluster || eqb_ℤ info.visibility visibility_node)
      (lookup uid r.map_pid)
