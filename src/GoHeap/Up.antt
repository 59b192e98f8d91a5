-- ===== src/GoHeap/Up.antt =====
-- `up` restores the heap order.
use flowline.Base.{ℕ, zero, suc, ◌<◌, ◌≤◌, ◌≡◌, true, ◌==◌, if◌then◌else◌, arith, ℕ_discrete}
use flowline.Base.Run.{Returns, returns, Returns-if, Returns-weaken}
use flowline.GoHeap.{Interface, parent, up_loop, up}
use flowline.GoHeap.Laws.{View, UpInv, Sifted, Sifted-swap, Sifted-refl}

module _ {ℓ} {S X Y W : Type ℓ} (h : Interface S X Y) (v : View h W) where
  swap-UpInv :
      (s t : S) (n j : ℕ)
      → UpInv v s n j
      → 0 < j
      → v.before (v.entry s j) (v.entry s (parent j)) ≡ true
      → v.Valid t
      → ((c : ℕ)
          → v.entry t c ≡ (
              if j == c
              then v.entry s (parent j)
              else if parent j == c
              then v.entry s j
              else v.entry s c))
      → UpInv v t n (parent j)
  swap-UpInv s t n j u pos below ok_t entry = record {
    valid = ok_t;
    edges = λ c p q r. elim (ℕ_discrete c j) [
      | yes e ↦ ground (
        arith,
        e,
        entry c,
        entry (parent c),
        v.before_asym (v.entry s j) (v.entry s (parent j)) below,
      )
      | no d ↦ elim (ℕ_discrete (parent c) (parent j)) [
        | yes e ↦ ground (
          arith,
          e,
          entry c,
          entry (parent c),
          u.edges c p q d,
          v.before_asym (v.entry s j) (v.entry s (parent j)) below,
          v.before_trans (v.entry s j) (v.entry s (parent j)) (v.entry s c),
        )
        | no f ↦ ground (arith, entry c, entry (parent c), u.edges c p q d, u.bridged c p q)
      ]
    ];
    bridged = λ c p q r z. ground (
      arith,
      entry c,
      entry (parent (parent j)),
      u.edges c,
      u.edges (parent j),
      v.before_trans (v.entry s (parent (parent j))) (v.entry s (parent j)) (v.entry s c),
    );
  }

  up_loop_restores :
      (fuel : ℕ) (s : S) (n j : ℕ)
      → j < fuel
      → j < n
      → n ≤ h.len s
      → UpInv v s n j
      → Returns (Sifted v s n) (up_loop h fuel s j)
  unfolding up_loop
  up_loop_restores zero s n j f p fits u = absurd (omega arith)
  up_loop_restores (suc fuel) s n j f p fits u =
      let above : parent j < h.len s = omega arith in
      let inside : j < h.len s = omega arith in
      Returns-if (parent j == j)
        (λ root. returns (Sifted-refl v s n u.valid (λ c q r. u.edges c q r (ground arith))))
        (λ inner. rw (v.less_lem s j (parent j) u.valid inside above) (
          Returns-if (v.before (v.entry s j) (v.entry s (parent j)))
            (λ below.
              let (t, swapped, valid, same, size, entry) =
                v.swap_lem s (parent j) j u.valid above inside in
              rw swapped (
                Returns-weaken
                  (up_loop_restores fuel t n (parent j) (ground arith) (omega arith) (omega arith)
                    (swap-UpInv s t n j u (ground arith) below valid entry))
                  (λ w. Sifted-swap v (parent j) j (omega arith) p same size entry)))
            (λ settled. returns (
              Sifted-refl v s n u.valid (λ c q r. elim (ℕ_discrete c j) [
                | yes e ↦ rw e settled
                | no d ↦ u.edges c q r d
              ])))))

  -- `up` turns a state with one entry too low into a heap of the same entries.
  pub up_restores :
      (s : S) (n j : ℕ) → j < n → n ≤ h.len s → UpInv v s n j → Returns (Sifted v s n) (up h s j)
  unfolding up
  up_restores s n j p fits u = up_loop_restores (suc j) s n j (omega arith) p fits u
