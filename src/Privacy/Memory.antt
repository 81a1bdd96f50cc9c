-- ===== src/Privacy/Memory.antt =====
-- The memory that the wrapper asks of C. cgo ends the program where C's malloc fails, so C.malloc,
-- C.CBytes and C.CString always give a block, and the wrapper's tests for nil are never true.
use secureorder.Prelude.{ℕ, suc, List, [], ◌∷◌}

-- The number of the next block, and the blocks handed out and given back so far, newest first.
pub record CMemory : Type 0 where
  pub next : ℕ
  pub mallocs : List ℕ
  pub frees : List ℕ

unfoldable pub malloc : CMemory → ℕ × CMemory
malloc m = (m.next, record m { next = suc m.next; mallocs = m.next ∷ m.mallocs })

unfoldable pub free : ℕ → CMemory → CMemory
free p m = record m { frees = p ∷ m.frees }

-- The loop over a slice of buffers.
unfoldable pub free_all : List ℕ → CMemory → CMemory
unfolding free
free_all [] m = m
free_all (p ∷ ps) m = free_all ps (free p m)
