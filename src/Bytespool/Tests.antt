-- ===== src/Bytespool/Tests.antt =====
-- The pool at concrete sizes.
use emberengine.Prelude.{[], ◌∷◌}
use emberengine.Bytespool.{mem_area_pool_list}
use emberengine.Bytespool.Reuse.{shapes}
use emberengine.Bytespool.Session.{make, release, run, SessionOk, run-mem_area_pool_list}

run-mem_area_pool_list_example :
    SessionOk
      (shapes mem_area_pool_list)
      (run (make 0 600 ∷ release 0 ∷ make 0 900 ∷ make 0 5000000 ∷ []) (mem_area_pool_list, []))
run-mem_area_pool_list_example =
    run-mem_area_pool_list (make 0 600 ∷ release 0 ∷ make 0 900 ∷ make 0 5000000 ∷ [])
