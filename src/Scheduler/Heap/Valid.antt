-- ===== src/Scheduler/Heap/Valid.antt =====
-- The states of a heap that the methods keep.
use Prim.Native.String.{String}
use flowline.Base.{◌≡◌, Bool, Option, some, arith}
use flowline.Base.Keys.{lookup, text_key}
use flowline.GoHeap.Laws.{IsHeap}
use flowline.Scheduler.Heap.{HeapData, get_by_key, len, new}
use flowline.Scheduler.Heap.Invariant.{Inv, IsOrder, heap_view}

module _ {ℓ} {V : Type ℓ} where
  module _ (less_func : V → V → Bool) (key_func : V → Option String)
      (order : IsOrder less_func) where
    -- The map and the queue agree, the queue is a heap, and each object stands under its own key.
    pub record Valid (d : HeapData V) : Type ℓ where
      pub inv : Inv d
      pub heap : IsHeap (heap_view less_func order) d (len d)
      pub keyed : (k : String) (x : V) → get_by_key d k ≡ some x → key_func x ≡ some k

    pub new-Valid : Valid new
    unfolding new get_by_key lookup
    new-Valid = record {
      inv = record {
        keys_once = tt;
        located = λ i k e. ground arith;
        listed = λ k i e. ground arith;
      };
      heap = λ c p q. absurd (omega arith);
      keyed = λ k x e. ground arith;
    }
