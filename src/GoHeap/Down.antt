-- ===== src/GoHeap/Down.antt =====
-- `down` restores the heap order, and says whether it moved the entry.
use flowline.Base.{
  ap, ℕ, zero, suc, ◌+◌, ◌*◌, ◌<◌, ◌≤◌, ◌≡◌, ◌⊎◌, inl, inr, refl, true, false, ltb, leb,
  if◌then◌else◌, arith, ℕ_discrete, ◌==◌,
}
use flowline.Base.Run.{Returns, returns, Returns-if, Returns-weaken, Returns-bind, Returns-value}
use flowline.GoHeap.{Interface, parent, smaller_child, down_loop, down, sink_or_rise}
use flowline.GoHeap.Up.{up_restores}
use flowline.GoHeap.Laws.{View, InOrder, UpInv, DownInv, NearInv, Sifted, Sifted-swap, Sifted-refl}

module _ {ℓ} {S X Y W : Type ℓ} (h : Interface S X Y) (v : View h W) where
  -- `m` is the child of `i` that comes first.
  record IsSmallerChild (s : S) (n i m : ℕ) : Type ℓ where
    inside : m < n
    child : (m ≡ 2 * i + 1) ⊎ (m ≡ 2 * i + 1 + 1)
    least : (c : ℕ) → 0 < c → c < n → parent c ≡ i → InOrder v s m c

  parent_cases : (c i : ℕ) → 0 < c → parent c ≡ i → (c ≡ 2 * i + 1) ⊎ (c ≡ 2 * i + 1 + 1)
  parent_cases c i p e = elim (ℕ_discrete c (2 * i + 1)) [
    | yes q ↦ inl q
    | no q ↦ inr (omega arith)
  ]

  before_irrefl : (x : W) → v.before x x ≡ false
  before_irrefl x = ground (arith, v.before_asym x x)

  smaller_child-IsSmallerChild :
      (s : S) (n i : ℕ)
      → v.Valid s
      → n ≤ h.len s
      → 2 * i + 1 < n
      → Returns (IsSmallerChild s n i) (smaller_child h s i n)
  unfolding smaller_child
  smaller_child-IsSmallerChild s n i valid fits p =
      Returns-if (ltb (2 * i + 1 + 1) n)
        (λ two. rw (v.less_lem s (2 * i + 1 + 1) (2 * i + 1) valid (ground arith) (omega arith)) (
          returns (record {
            inside = ground arith;
            child = ground arith;
            least = λ c q r e. elim (parent_cases c i q e) [
              | inl f ↦ rw f (
                  ground (
                    arith,
                    v.before_asym (v.entry s (2 * i + 1 + 1)) (v.entry s (2 * i + 1)),
                    before_irrefl (v.entry s (2 * i + 1)),
                    before_irrefl (v.entry s (2 * i + 1 + 1)),
                  ))
              | inr f ↦ rw f (
                  ground (
                    arith,
                    v.before_asym (v.entry s (2 * i + 1 + 1)) (v.entry s (2 * i + 1)),
                    before_irrefl (v.entry s (2 * i + 1)),
                    before_irrefl (v.entry s (2 * i + 1 + 1)),
                  ))
            ];
          })))
        (λ one. returns (record {
          inside = p;
          child = inl refl;
          least = λ c q r e. elim (parent_cases c i q e) [
            | inl f ↦ rw f (before_irrefl _)
            | inr f ↦ absurd (ground arith)
          ];
        }))

  swap-DownInv :
      (s t : S) (n i m : ℕ)
      → DownInv v s n i
      → IsSmallerChild s n i m
      → v.before (v.entry s m) (v.entry s i) ≡ true
      → v.Valid t
      → ((c : ℕ)
          → v.entry t c
            ≡ (if m == c then v.entry s i else if i == c then v.entry s m else v.entry s c))
      → DownInv v t n m
  swap-DownInv s t n i m u least below ok_t entry = record {
    valid = ok_t;
    edges = λ c p q r. elim (ℕ_discrete (parent c) i) [
      | yes e ↦ elim (ℕ_discrete c m) [
        | yes f ↦ ground (
          arith,
          e,
          f,
          entry c,
          entry (parent c),
          v.before_asym (v.entry s m) (v.entry s i) below,
        )
        | no f ↦ ground (arith, e, entry c, entry (parent c), least.least c p q e)
      ]
      | no d ↦ elim (ℕ_discrete c i) [
        | yes f ↦ ground (
          arith,
          f,
          entry c,
          entry (parent c),
          u.bridged m (omega (arith, least.child)) least.inside (omega (arith, least.child))
              (omega arith),
          ap parent f,
        )
        | no f ↦ ground (arith, entry c, entry (parent c), u.edges c p q d)
      ]
    ];
    bridged = λ c p q r z. ground (arith, r, entry c, entry (parent m), u.edges c p q);
  }

  -- What the loop of `down` yields: a heap, and an index no lower than the first.
  abbrev Sunk : S → ℕ → ℕ → S × ℕ → Type ℓ
  Sunk s n i (t, last) = Sifted v s n t × (i ≤ last)

  down_loop_restores :
      (fuel : ℕ) (s : S) (n i : ℕ)
      → n < fuel + i
      → n ≤ h.len s
      → i < n
      → DownInv v s n i
      → Returns (Sunk s n i) (down_loop h fuel s i n)
  unfolding down_loop
  down_loop_restores zero s n i f fits p u = absurd (omega arith)
  down_loop_restores (suc fuel) s n i f fits p u =
      Returns-if (leb n (2 * i + 1))
        (λ leaf.
          returns (Sifted-refl v s n u.valid (λ c q r. u.edges c q r (ground arith)), omega arith))
        (λ inner.
          Returns-bind (smaller_child-IsSmallerChild s n i u.valid fits (ground arith)) λ m least.
            let hm : m < h.len s = omega (arith, least.inside) in
            let hi : i < h.len s = omega arith in
            rw (v.less_lem s m i u.valid hm hi) (
              Returns-if (v.before (v.entry s m) (v.entry s i))
                (λ below.
                  let (t, swapped, valid, same, size, entry) = v.swap_lem s i m u.valid hi hm in
                  rw swapped (
                    Returns-weaken
                      (down_loop_restores fuel t n m (omega (arith, least.child)) (omega arith)
                        least.inside (swap-DownInv s t n i m u least below valid entry))
                      (λ w sunk. (
                        Sifted-swap v i m p least.inside same size entry sunk.0,
                        omega (arith, least.child),
                      ))))
                (λ settled. returns (
                  Sifted-refl v s n u.valid (λ c q r. elim (ℕ_discrete (parent c) i) [
                    | yes e ↦ rw e (
                        v.before_trans (v.entry s i) (v.entry s m) (v.entry s c) settled
                          (least.least c q r e))
                    | no d ↦ u.edges c q r d
                  ]),
                  omega arith,
                ))))

  -- `down` turns a state with one entry too high into a heap of the same entries.
  pub down_restores :
      (s : S) (n i : ℕ)
      → n ≤ h.len s
      → i ≤ n
      → DownInv v s n i
      → Returns (λ (t, moved). Sifted v s n t) (down h s i n)
  unfolding down down_loop
  down_restores s n i fits p u = elim (ℕ_discrete i n) [
    | yes e ↦
        let leaf : leb n (2 * i + 1) ≡ true = ground arith in
        rw leaf (returns (Sifted-refl v s n u.valid (λ c q r. u.edges c q r (omega arith))))
    | no d ↦
        Returns-bind (down_loop_restores (suc n) s n i (omega arith) fits (omega arith) u)
          λ (t, last) sunk. returns sunk.0
  ]

  -- What the loop of `down` yields where only the edges at `i` may be out of order.
  abbrev NearSunk : S → ℕ → ℕ → S × ℕ → Type ℓ
  NearSunk s n i (t, last) = ((i < last) × Sifted v s n t) ⊎ ((last ≡ i) × (t ≡ s) × UpInv v s n i)

  edge_above :
      (s : S) (n i m : ℕ)
      → NearInv v s n i
      → IsSmallerChild s n i m
      → v.before (v.entry s m) (v.entry s i) ≡ true
      → DownInv v s n i
  edge_above s n i m u least below = record {
    valid = u.valid;
    bridged = u.bridged;
    edges = λ c q r d. elim (ℕ_discrete c i) [
      | yes e ↦
          v.before_trans (v.entry s (parent c)) (v.entry s m) (v.entry s c)
            (rw e (
              u.bridged m (omega (arith, least.child)) least.inside (omega (arith, least.child))
                (omega arith)))
            (rw e (v.before_asym (v.entry s m) (v.entry s i) below))
      | no f ↦ u.edges c q r f d
    ];
  }

  down_loop_near :
      (s : S) (n i : ℕ)
      → n ≤ h.len s
      → i < n
      → NearInv v s n i
      → Returns (NearSunk s n i) (down_loop h (suc n) s i n)
  unfolding down_loop
  down_loop_near s n i fits p u =
      Returns-if (leb n (2 * i + 1))
        (λ leaf. returns (
          inr (
            refl,
            refl,
            record {
              valid = u.valid;
              edges = λ c q r d. u.edges c q r d (ground arith);
              bridged = u.bridged;
            },
          )))
        (λ inner.
          Returns-bind (smaller_child-IsSmallerChild s n i u.valid fits (ground arith)) λ m least.
            let hm : m < h.len s = omega (arith, least.inside) in
            let hi : i < h.len s = omega arith in
            rw (v.less_lem s m i u.valid hm hi) (
              Returns-if (v.before (v.entry s m) (v.entry s i))
                (λ below.
                  let (t, swapped, valid, same, size, entry) = v.swap_lem s i m u.valid hi hm in
                  let d = edge_above s n i m u least below in
                  rw swapped (
                    Returns-weaken
                      (down_loop_restores n t n m (omega (arith, least.child)) (omega arith)
                        least.inside (swap-DownInv s t n i m d least below valid entry))
                      (λ w sunk. inl (
                        omega (arith, least.child, sunk.1),
                        Sifted-swap v i m p least.inside same size entry sunk.0,
                      ))))
                (λ settled. returns (
                  inr (
                    refl,
                    refl,
                    record {
                      valid = u.valid;
                      edges = λ c q r f. elim (ℕ_discrete (parent c) i) [
                        | yes e ↦ rw e (
                            v.before_trans (v.entry s i) (v.entry s m) (v.entry s c) settled
                              (least.least c q r e))
                        | no d ↦ u.edges c q r f d
                      ];
                      bridged = u.bridged;
                    },
                  )))))

  -- `down` and, if it moved nothing, `up` turn a state with one entry out of place into a heap.
  pub sink_or_rise_restores :
      (s : S) (n i : ℕ)
      → n ≤ h.len s
      → i < n
      → NearInv v s n i
      → Returns (Sifted v s n) (sink_or_rise h s i n)
  unfolding sink_or_rise down
  sink_or_rise_restores s n i fits p u =
      let ((t, last), e, sunk) = Returns-value (down_loop_near s n i fits p u) in
      rw e (
        Returns-if (ltb i last)
          (λ moved. elim sunk [
            | inl (far, sifted) ↦ returns sifted
            | inr (near, same, up_inv) ↦ absurd (ground arith)
          ])
          (λ still. elim sunk [
            | inl (far, sifted) ↦ absurd (ground arith)
            | inr (near, same, up_inv) ↦ rw same (up_restores h v s n i p fits up_inv)
          ]))
