-- ===== src/Repository/Tests.antt =====
-- A repository of two services.
use emberengine.Prelude.{◌≡◌, ◌↔◌, refl, List, [], ◌∷◌, true, false, none, some}
use emberengine.Prelude.Int.{pos}
use emberengine.Prelude.Dict.{lookup, string_eq}
use emberengine.Repository.{
  Pid, Dispatcher, ServiceInfo, Repository, new_repository, mem, svc_status_ready,
  visibility_cluster,
}
use emberengine.Repository.Index.{in_name}
use emberengine.Repository.Agree.{Agrees}
use emberengine.Repository.Session.{Call, adds, removes, run, run-Agrees}
use emberengine.Repository.Selector.{SelectParam, select}
use emberengine.Repository.Selector.Query.{uids_of, receivers}
use emberengine.Repository.Selector.Wanted.{Wanted, select-Wanted}
use emberengine.Repository.Race.{overtaken, overtaken_unlisted}

abbrev login_pid : Pid
login_pid = record {
  service_uid = "login-1";
  name = "login";
  service_type = "gate";
  service_id = "1";
  partition = pos 1;
  is_master = true;
  retired = false;
}

abbrev login : Dispatcher
login = record { id = 1; pid = login_pid }

abbrev chat : Dispatcher
chat = record { id = 2; pid = record login_pid { service_uid = "chat-1"; name = "chat" } }

abbrev calls : List Call
calls =
    adds "" login svc_status_ready visibility_cluster
    ∷ adds "c" chat svc_status_ready visibility_cluster
    ∷ removes "c"
    ∷ []

abbrev by_login : SelectParam
by_login = record {
  service_name = some "login";
  wanted_partition = none;
  wanted_id = none;
  is_slaver = false;
}

select-Wanted_example :
    (mem "login-1" (uids_of (receivers (select "x" by_login 0 (run calls new_repository)).0))
      ≡ true)
    ↔ ((info : ServiceInfo) × (lookup "login-1" (run calls new_repository).map_pid ≡ some info)
        × Wanted "login" by_login info)
select-Wanted_example =
    select-Wanted "x" "login" "login-1" by_login 0 (run calls new_repository) (run-Agrees calls)
      refl

run-Agrees_example : Agrees (run calls new_repository)
run-Agrees_example = run-Agrees calls

abbrev login_info : ServiceInfo
login_info = record {
  dispatcher = login;
  status = svc_status_ready;
  visibility = visibility_cluster;
}

abbrev one_service : Repository
one_service = record {
  key_map = ("k", "login-1") ∷ [];
  map_pid = ("login-1", login_info) ∷ [];
  tmp_map_pid = [];
  by_name = ("login", "login-1" ∷ []) ∷ [];
  by_type = ("gate", ("login", "login-1" ∷ []) ∷ []) ∷ [];
  closed = [];
}

abbrev login_again : Dispatcher
login_again = record login { id = 3 }

overtaken_unlisted_example :
    (lookup "login-1"
        (overtaken "k" login_again svc_status_ready visibility_cluster one_service).map_pid
      ≡ some (record login_info { dispatcher = login_again }))
    × (in_name "login" "login-1"
          (overtaken "k" login_again svc_status_ready visibility_cluster one_service).by_name
        ≡ false)
overtaken_unlisted_example =
    overtaken_unlisted "k" "login-1" login_again svc_status_ready visibility_cluster login_info
      one_service refl refl refl refl refl
