-- ===== src/Mailbox/QueueSpec/Tests.antt =====
-- The storage of three workers with a queue of 1024 slots and one of 2.
use emberengine.Prelude.{◌*◌, ◌≡◌, ◌≤◌, refl, List, [], ◌∷◌, arith}
use emberengine.Prelude.Int.{ℤ, pos}
use emberengine.Mailbox.QueueSpec.{
  checked, storage_bytes, add_layouts, add_layout, checked_queue_add, checked_queue_mul,
  is_bad_capacity,
}
use emberengine.Mailbox.QueueSpec.Budget.{AllPowers, storage_bytes_lem}

abbrev capacities : List ℤ
capacities = pos 1_024 ∷ pos 2 ∷ []

accepted : storage_bytes 80 16 capacities 3 100_000 ≡ checked 49_728
unfolding storage_bytes add_layouts add_layout checked_queue_add checked_queue_mul is_bad_capacity
accepted = refl

storage_bytes_lem_example : AllPowers capacities × (49_728 ≡ 16_576 * 3) × (49_728 ≤ 100_000)
storage_bytes_lem_example = storage_bytes_lem 80 16 (omega arith) capacities 3 100_000 accepted
