-- ===== src/Scheduler/Sort.antt =====
-- pkg/scheduler/framework/plugins/queuesort: the order of PrioritySort.
use flowline.Base.{◌≡◌, true, false, arith}
use flowline.Base.Int.{ℤ, pos, negsuc, ltbℤ}
use flowline.Scheduler.Types.{priority_less}
use flowline.Scheduler.Heap.Invariant.{IsOrder}

ltbℤ-asym : (a b : ℤ) → ltbℤ a b ≡ true → ltbℤ b a ≡ false
ltbℤ-asym (pos a) (pos b) h = ground arith
ltbℤ-asym (pos a) (negsuc b) h = ground arith
ltbℤ-asym (negsuc a) (pos b) h = ground arith
ltbℤ-asym (negsuc a) (negsuc b) h = ground arith

ltbℤ-trans : (a b c : ℤ) → ltbℤ a b ≡ false → ltbℤ b c ≡ false → ltbℤ a c ≡ false
ltbℤ-trans (pos a) (pos b) (pos c) h k = ground arith
ltbℤ-trans (pos a) (pos b) (negsuc c) h k = ground arith
ltbℤ-trans (pos a) (negsuc b) (pos c) h k = ground arith
ltbℤ-trans (pos a) (negsuc b) (negsuc c) h k = ground arith
ltbℤ-trans (negsuc a) (pos b) (pos c) h k = ground arith
ltbℤ-trans (negsuc a) (pos b) (negsuc c) h k = ground arith
ltbℤ-trans (negsuc a) (negsuc b) (pos c) h k = ground arith
ltbℤ-trans (negsuc a) (negsuc b) (negsuc c) h k = ground arith

-- The order of PrioritySort is a strict weak order of the stages.
pub priority_less-IsOrder : IsOrder priority_less
unfolding priority_less
priority_less-IsOrder = record {
  asym = λ x y h. ground (
    arith,
    ltbℤ-asym x.stage.priority y.stage.priority,
    ltbℤ-asym y.stage.priority x.stage.priority,
  );
  trans = λ x y z p q. ground (
    arith,
    ltbℤ-asym x.stage.priority y.stage.priority,
    ltbℤ-asym y.stage.priority x.stage.priority,
    ltbℤ-asym y.stage.priority z.stage.priority,
    ltbℤ-asym z.stage.priority y.stage.priority,
    ltbℤ-asym x.stage.priority z.stage.priority,
    ltbℤ-asym z.stage.priority x.stage.priority,
    ltbℤ-trans x.stage.priority y.stage.priority z.stage.priority,
    ltbℤ-trans z.stage.priority y.stage.priority x.stage.priority,
    ltbℤ-trans y.stage.priority z.stage.priority x.stage.priority,
    ltbℤ-trans x.stage.priority z.stage.priority y.stage.priority,
    ltbℤ-trans z.stage.priority x.stage.priority y.stage.priority,
    ltbℤ-trans y.stage.priority x.stage.priority z.stage.priority,
  );
}
