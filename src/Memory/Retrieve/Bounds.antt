-- ===== src/Memory/Retrieve/Bounds.antt =====
-- How much a retrieval returns.
use amit_ai.Common.{ltb, length, ℕ, ◌+◌, ◌≤◌, ◌<◌, ◌≡◌, false, none, List, [], ◌∷◌, arith}
use amit_ai.Common.Texts.{Text}
use amit_ai.Memory.Types.{SlotStatus, Db, MemoryRecord, Operation}
use amit_ai.Memory.Tables.{sort_by, list_current}
use amit_ai.Memory.Apply.{memory_record}
use amit_ai.Memory.Stage.{Policy}
use amit_ai.Memory.Retrieve.{
  Ranked, max_retrieved_memories, max_memory_context_chars, rank, select, retrieve, ranks_before,
}

module _ (size : MemoryRecord → ℕ) where
  abbrev pub total : List MemoryRecord → ℕ
  total [] = 0
  total (r ∷ rs) = size r + total rs

  select_bounds :
      (n chars : ℕ) (ranked : List Ranked)
      → n < max_retrieved_memories
      → chars ≤ max_memory_context_chars
      → (ltb 0 n ≡ false → chars ≡ 0)
      → (length (select size n chars ranked) + n ≤ max_retrieved_memories)
        × (total (select size n chars ranked) + chars ≤ max_memory_context_chars)
  unfolding select
  select_bounds n chars [] room fits start = omega arith
  select_bounds n chars (k ∷ ranked) room fits start = ground (
    arith,
    start,
    select_bounds n chars ranked room fits start,
    select_bounds (n + 1) (chars + size (memory_record k.slot k.revision Operation.retrieved))
        ranked,
  )

  -- A retrieval returns at most eight records, and their JSON has at most 4,000 characters in all.
  pub retrieve_bounds :
      (policy : Policy) (owner : ℕ) (query : Text) (excluded : List ℕ) (db : Db)
      → (length (retrieve policy size owner query excluded db) ≤ max_retrieved_memories)
        × (total (retrieve policy size owner query excluded db) ≤ max_memory_context_chars)
  unfolding retrieve
  retrieve_bounds policy owner query excluded db = ground (
    arith,
    select_bounds 0 0 (
        sort_by ranks_before
          (rank policy query excluded (list_current owner SlotStatus.active none db))),
  )
