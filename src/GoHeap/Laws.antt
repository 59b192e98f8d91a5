-- ===== src/GoHeap/Laws.antt =====
-- What container/heap asks of its interface, and the heap order.
use flowline.Base.{
  ◌∙◌, refl, ℕ, zero, suc, ◌<◌, ◌≤◌, ◌≡◌, ◌≢◌, Bool, true, false, ◌==◌, if◌then◌else◌, arith,
}
use flowline.Base.Run.{ok}
use flowline.GoHeap.{Interface, parent}

-- The entries of a heap by index, the order on entries, the states that are valid, and when two
-- states hold the same entries.
pub record View {ℓ} {S X Y : Type ℓ} (h : Interface S X Y) (W : Type ℓ) : Type (ℓ + 1) where
  pub entry : S → ℕ → W
  pub before : W → W → Bool
  pub Valid : S → Type ℓ
  pub Same : S → S → Type ℓ
  pub same_refl : (s : S) → Same s s
  pub same_trans : {s t u : S} → Same s t → Same t u → Same s u
  pub before_asym : (x y : W) → before x y ≡ true → before y x ≡ false
  pub before_trans : (x y z : W) → before y x ≡ false → before z y ≡ false → before z x ≡ false
  pub less_lem :
      (s : S) (i j : ℕ)
      → Valid s
      → i < h.len s
      → j < h.len s
      → h.less s i j ≡ ok (before (entry s i) (entry s j))
  pub swap_lem :
      (s : S) (i j : ℕ)
      → Valid s
      → i < h.len s
      → j < h.len s
      → (t : S) × (h.swap s i j ≡ ok t)
        × Valid t
        × Same s t
        × (h.len t ≡ h.len s)
        × ((c : ℕ)
            → entry t c ≡ (if j == c then entry s i else if i == c then entry s j else entry s c))

module _ {ℓ} {S X Y W : Type ℓ} {h : Interface S X Y} (v : View h W) where
  -- No entry `c` comes before the entry `p`.
  abbrev pub InOrder : S → ℕ → ℕ → Type 0
  InOrder s p c = v.before (v.entry s c) (v.entry s p) ≡ false

  -- The first `n` entries are a heap.
  abbrev pub IsHeap : S → ℕ → Type 0
  IsHeap s n = (c : ℕ) → 0 < c → c < n → InOrder s (parent c) c

  -- The edges past `i`, from its parent to its children, are in order.
  abbrev pub IsBridged : S → ℕ → ℕ → Type 0
  IsBridged s n i = (c : ℕ) → 0 < c → c < n → parent c ≡ i → 0 < i → InOrder s (parent i) c

  -- Only the edge above `i` may be out of order.
  pub record UpInv (s : S) (n i : ℕ) : Type ℓ where
    pub valid : v.Valid s
    pub edges : (c : ℕ) → 0 < c → c < n → c ≢ i → InOrder s (parent c) c
    pub bridged : IsBridged s n i

  -- Only the edges below `i` may be out of order.
  pub record DownInv (s : S) (n i : ℕ) : Type ℓ where
    pub valid : v.Valid s
    pub edges : (c : ℕ) → 0 < c → c < n → parent c ≢ i → InOrder s (parent c) c
    pub bridged : IsBridged s n i

  -- Only the edges at `i` may be out of order.
  pub record NearInv (s : S) (n i : ℕ) : Type ℓ where
    pub valid : v.Valid s
    pub edges : (c : ℕ) → 0 < c → c < n → c ≢ i → parent c ≢ i → InOrder s (parent c) c
    pub bridged : IsBridged s n i

  -- A valid heap with the entries of `s`, which agrees with `s` past the first `n` entries.
  pub record Sifted (s : S) (n : ℕ) (t : S) : Type ℓ where
    pub valid : v.Valid t
    pub same : v.Same s t
    pub size : h.len t ≡ h.len s
    pub heap : IsHeap t n
    pub beyond : (c : ℕ) → n ≤ c → v.entry t c ≡ v.entry s c

  -- To sift a state after a swap of two of its first `n` entries is to sift the state.
  pub Sifted-swap :
      {s t u : S} {n : ℕ} (i j : ℕ)
      → i < n
      → j < n
      → v.Same s t
      → h.len t ≡ h.len s
      → ((c : ℕ)
          → v.entry t c
            ≡ (if j == c then v.entry s i else if i == c then v.entry s j else v.entry s c))
      → Sifted t n u
      → Sifted s n u
  Sifted-swap i j hi hj same size entry f = record {
    valid = f.valid;
    same = v.same_trans same f.same;
    size = f.size ∙ size;
    heap = f.heap;
    beyond = λ c p. f.beyond c p ∙ ground (arith, entry c);
  }

  pub Sifted-refl : (s : S) (n : ℕ) → v.Valid s → IsHeap s n → Sifted s n s
  Sifted-refl s n valid heap = record {
    valid = valid;
    same = v.same_refl s;
    size = refl;
    heap = heap;
    beyond = λ c p. refl;
  }

  root_least_below : (k : ℕ) (s : S) (n i : ℕ) → IsHeap s n → i < k → i < n → InOrder s 0 i
  root_least_below zero s n i heap f p = absurd (omega arith)
  root_least_below (suc k) s n zero heap f p =
      ground (arith, v.before_asym (v.entry s 0) (v.entry s 0))
  root_least_below (suc k) s n (suc i) heap f p =
      v.before_trans (v.entry s 0) (v.entry s (parent (suc i))) (v.entry s (suc i))
        (root_least_below k s n (parent (suc i)) heap (omega arith) (omega arith))
        (heap (suc i) (omega arith) p)

  -- No entry of a heap comes before its root.
  pub root_least : (s : S) (n i : ℕ) → IsHeap s n → i < n → InOrder s 0 i
  root_least s n i heap p = root_least_below (suc i) s n i heap (omega arith) p
