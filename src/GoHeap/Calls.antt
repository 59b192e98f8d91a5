-- ===== src/GoHeap/Calls.antt =====
-- The calls of container/heap, over what Push and Pop of the implementation do.
use flowline.Base.{Bool, ◌∙◌, ℕ, suc, ◌-◌, ◌<◌, ◌≡◌, ◌≢◌, refl, false, ◌==◌, arith, ℕ_discrete}
use flowline.Base.Run.{ok, Returns, Returns-value}
use flowline.GoHeap.{
  Interface, parent, down, sink_or_rise, heap_push, heap_pop, heap_remove, heap_fix,
}
use flowline.GoHeap.Up.{up_restores}
use flowline.GoHeap.Down.{down_restores, sink_or_rise_restores}
use flowline.GoHeap.Laws.{View, InOrder, IsHeap, Sifted}

module _ {ℓ} {S X Y W : Type ℓ} (h : Interface S X Y) (v : View h W) where
  -- After an append to a heap the heap is sifted.
  pub heap_push_restores :
      (s t : S) (x : X)
      → h.push s x ≡ ok t
      → v.Valid t
      → h.len t ≡ suc (h.len s)
      → ((c : ℕ) → c < h.len s → v.entry t c ≡ v.entry s c)
      → IsHeap v s (h.len s)
      → Returns (Sifted v t (h.len t)) (heap_push h s x)
  unfolding heap_push
  heap_push_restores s t x pushed valid size entry heap = rw pushed (
      up_restores h v t (h.len t) (h.len t - 1) (omega arith) (omega arith) (record {
        valid = valid;
        edges = λ c p q r. ground (arith, size, heap c, entry c, entry (parent c));
        bridged = λ c p q r z. absurd (omega arith);
      }))

  -- An entry is changed anywhere in a heap: Fix sifts it.
  pub heap_fix_restores :
      (s t : S) (i : ℕ)
      → i < h.len t
      → h.len t ≡ h.len s
      → v.Valid t
      → ((c : ℕ) → c ≢ i → v.entry t c ≡ v.entry s c)
      → IsHeap v s (h.len s)
      → Returns (Sifted v t (h.len t)) (heap_fix h t i)
  unfolding heap_fix
  heap_fix_restores s t i p size valid entry heap =
      sink_or_rise_restores h v t (h.len t) i (omega arith) p (record {
        valid = valid;
        edges = λ c q r d e. rw (entry c d, entry (parent c) e) (heap c q (omega arith));
        bridged = λ c q r e z.
            rw (entry c (omega arith), entry (parent i) (omega arith))
              (v.before_trans (v.entry s (parent i)) (v.entry s i) (v.entry s c)
                (heap i z (omega arith)) (rw e at (heap c q (omega arith))));
      })

  -- The state that a call hands to Pop of the implementation: the removed entry stands last, behind
  -- a heap of the others.
  pub record Ready (s : S) (i : ℕ) (u : S) : Type ℓ where
    pub valid : v.Valid u
    pub same : v.Same s u
    pub size : h.len u ≡ h.len s
    pub heap : IsHeap v u (h.len s - 1)
    pub taken : v.entry u (h.len s - 1) ≡ v.entry s i

  Ready-of :
      (s t u : S) (i : ℕ)
      → v.Same s t
      → h.len t ≡ h.len s
      → v.entry t (h.len s - 1) ≡ v.entry s i
      → Sifted v t (h.len s - 1) u
      → Ready s i u
  Ready-of s t u i same size taken w = record {
    valid = w.valid;
    same = v.same_trans same w.same;
    size = w.size ∙ size;
    heap = w.heap;
    taken = w.beyond (h.len s - 1) (omega arith) ∙ taken;
  }

  pop_runs :
      (s t u : S) (moved : Bool)
      → 0 < h.len s
      → h.swap s 0 (h.len s - 1) ≡ ok t
      → down h t 0 (h.len s - 1) ≡ ok (u, moved)
      → heap_pop h s ≡ h.pop u
  unfolding heap_pop
  pop_runs s t u moved p e f =
      let some_left : h.len s == 0 ≡ false = ground arith in rw (some_left, e, f)

  remove_runs :
      (s t u : S) (i : ℕ)
      → 0 < h.len s
      → h.len s - 1 ≢ i
      → h.swap s i (h.len s - 1) ≡ ok t
      → sink_or_rise h t i (h.len s - 1) ≡ ok u
      → heap_remove h s i ≡ h.pop u
  unfolding heap_remove
  remove_runs s t u i p d e f =
      let some_left : h.len s == 0 ≡ false = ground arith in
      let other : h.len s - 1 == i ≡ false = ground arith in rw (some_left, other, e, f)

  remove_last_runs : (s : S) (i : ℕ) → 0 < h.len s → h.len s - 1 ≡ i → heap_remove h s i ≡ h.pop s
  unfolding heap_remove
  remove_last_runs s i p e = ground arith

  pub heap_pop-Ready :
      (s : S)
      → v.Valid s
      → IsHeap v s (h.len s)
      → 0 < h.len s
      → (u : S) × (heap_pop h s ≡ h.pop u) × Ready s 0 u
  heap_pop-Ready s valid heap p =
      let last = h.len s - 1 in
      let (t, swapped, valid', same, size, entry) = v.swap_lem s 0 last valid p (omega arith) in
      let ((u, moved), sifted, w) = Returns-value (
        down_restores h v t last 0 (omega arith) (omega arith) (record {
          valid = valid';
          edges = λ c q r f. ground (arith, entry c, entry (parent c), heap c);
          bridged = λ c q r e z. absurd (omega arith);
        })) in
      (
        u,
        pop_runs s t u moved p swapped sifted,
        Ready-of s t u 0 same size (ground (arith, entry last)) w,
      )

  pub heap_remove-Ready :
      (s : S) (i : ℕ)
      → v.Valid s
      → IsHeap v s (h.len s)
      → i < h.len s
      → (u : S) × (heap_remove h s i ≡ h.pop u) × Ready s i u
  heap_remove-Ready s i valid heap p = elim (ℕ_discrete (h.len s - 1) i) [
    | yes e ↦ (
      s,
      remove_last_runs s i (omega arith) e,
      record {
        valid = valid;
        same = v.same_refl s;
        size = refl;
        heap = λ c q r. heap c q (omega arith);
        taken = rw e;
      },
    )
    | no d ↦
        let last = h.len s - 1 in
        let (t, swapped, valid', same, size, entry) = v.swap_lem s i last valid p (omega arith) in
        let (u, sifted, w) = Returns-value (
          sink_or_rise_restores h v t last i (omega arith) (omega arith) (record {
            valid = valid';
            edges = λ c q r f g. ground (arith, entry c, entry (parent c), heap c);
            bridged = λ c q r e z.
                let above = heap i z (omega arith) in
                let below : InOrder v s i c = rw e at (heap c q (omega arith)) in
                ground (
                  arith,
                  entry c,
                  entry (parent i),
                  above,
                  below,
                  v.before_trans (v.entry s (parent i)) (v.entry s i) (v.entry s c),
                );
          })) in
        (
          u,
          remove_runs s t u i (omega arith) d swapped sifted,
          Ready-of s t u i same size (ground (arith, entry last)) w,
        )
  ]
