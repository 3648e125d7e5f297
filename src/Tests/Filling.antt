-- ===== src/Tests/Filling.antt =====
-- The list of the demo, over memory that is zero and memory that is not.
use linux_system_monitoring.Base.{ℕ, ◌≡◌, refl, arith, true, none, some}
use linux_system_monitoring.Demo.{Heap, Allocator, fill_memory}
use linux_system_monitoring.Demo.Freeing.{fill_memory_lem}
use linux_system_monitoring.Demo.Stale.{fill_memory_stale}

abbrev zeroed : Allocator
zeroed = record { gives = λ p. true; stale = λ p. none }

-- The memory of a node holds the address 3.
abbrev dirty : Allocator
dirty = record { gives = λ p. true; stale = λ p. some 3 }

abbrev empty : Heap
empty = record { block = λ p. none; fresh = 5 }

fill_memory_lem_example :
    (h' : Heap) × (fill_memory zeroed empty ≡ some h') × ((x : ℕ) → h'.block x ≡ none)
fill_memory_lem_example = fill_memory_lem zeroed empty (λ p. refl) (λ p. refl) (λ x l. refl)

fill_memory_stale_example : fill_memory dirty empty ≡ none
fill_memory_stale_example = fill_memory_stale dirty empty 3 refl (omega arith) refl
