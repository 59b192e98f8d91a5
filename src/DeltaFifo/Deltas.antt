-- ===== src/DeltaFifo/Deltas.antt =====
-- dedupDeltas: what the deltas of an object are after one more.
use flowline.Base.{
  ◌<◌, ◌≡◌, ◌⊎◌, sym, ◌∙◌, refl, Bool, true, false, ◌&&◌, length, [], ◌∷◌, ◌++◌, some, arith,
  Bool-cases, inl, inr,
}
use flowline.DeltaFifo.{
  DeltaType, added, updated, deleted, replaced, sync, Obj, nothing, object,
  deleted_final_state_unknown, Delta, Deltas, is_deleted, newest, kept_object, is_dup, dedup_deltas,
}

is_deleted-eq : (t : DeltaType) → is_deleted t ≡ true → t ≡ deleted
is_deleted-eq deleted e = refl
is_deleted-eq added e = absurd cc
is_deleted-eq updated e = absurd cc
is_deleted-eq replaced e = absurd cc
is_deleted-eq sync e = absurd cc

module _ {ℓ} {V : Type ℓ} where
  abbrev pub gone : Delta V → Bool
  gone d = is_deleted d.delta_type

  -- No two neighbours are both deletions.
  abbrev pub Compressed : Deltas V → Type 0
  Compressed [] = Unit
  Compressed (b ∷ []) = Unit
  Compressed (b ∷ a ∷ l) = (gone b && gone a ≡ false) × Compressed (a ∷ l)

  kept_object-cases :
      (o : Obj V) (a b : Delta V) → (kept_object o a b ≡ a) ⊎ (kept_object o a b ≡ b)
  unfolding kept_object
  kept_object-cases nothing a b = inr refl
  kept_object-cases (object v) a b = inr refl
  kept_object-cases (deleted_final_state_unknown k o) a b = inl refl

  dedup-cons :
      (c b : Delta V) (l : Deltas V) (d : Delta V)
      → dedup_deltas (c ∷ b ∷ l ++ d ∷ []) ≡ c ∷ dedup_deltas (b ∷ l ++ d ∷ [])
  unfolding dedup_deltas
  dedup-cons c b [] d = refl
  dedup-cons c b (x ∷ l) d = refl

  -- The result, from its first delta on.
  record Deduped (b d : Delta V) (out : Deltas V) : Type ℓ where
    head : Delta V
    tail : Deltas V
    shape : out ≡ head ∷ tail
    same_start : gone head ≡ gone b
    compressed : Compressed (head ∷ tail)
    last : Delta V
    ends : newest (head ∷ tail) ≡ some last
    same_type : last.delta_type ≡ d.delta_type
    verbatim : gone d ≡ false → last ≡ d

  both_gone :
      (b d x : Delta V)
      → gone b ≡ true
      → gone d ≡ true
      → (x ≡ d) ⊎ (x ≡ b)
      → is_dup d b ≡ some x
      → Deduped b d (dedup_deltas (b ∷ d ∷ []))
  unfolding dedup_deltas newest
  both_gone b d x gone_b gone_d which e =
      rw (e, dedup_deltas)
        (record {
          head = x;
          tail = [];
          shape = refl;
          same_start = elim which [ inl h ↦ rw h (cc) | inr h ↦ rw h refl ];
          compressed = tt;
          last = x;
          ends = refl;
          same_type = elim which [
            | inl h ↦ rw h refl
            | inr h ↦
                rw h (is_deleted-eq b.delta_type gone_b ∙ sym (is_deleted-eq d.delta_type gone_d))
          ];
          verbatim = λ h. absurd cc;
        })

  dedup_pair : (b d : Delta V) → Deduped b d (dedup_deltas (b ∷ d ∷ []))
  unfolding dedup_deltas newest is_dup
  dedup_pair b d = elim (Bool-cases (gone b && gone d)) [
    | inl both ↦
        both_gone b d (kept_object b.obj d b) (ground arith) (ground arith)
          (kept_object-cases b.obj d b) (ground arith)
    | inr apart ↦
        let kept : dedup_deltas (b ∷ d ∷ []) ≡ b ∷ d ∷ [] = ground arith in
        rw kept (record {
          head = b;
          tail = d ∷ [];
          shape = refl;
          same_start = refl;
          compressed = (apart, tt);
          last = d;
          ends = refl;
          same_type = refl;
          verbatim = λ h. refl;
        })
  ]

  dedup_more :
      (b : Delta V) (l : Deltas V) (d : Delta V)
      → Compressed (b ∷ l)
      → Deduped b d (dedup_deltas (b ∷ l ++ d ∷ []))
  unfolding newest
  dedup_more b [] d h = dedup_pair b d
  dedup_more b (a ∷ l) d (apart, h) =
      let w = dedup_more a l d h in
      rw (dedup-cons b a l d, w.shape)
        (record {
          head = b;
          tail = w.head ∷ w.tail;
          shape = refl;
          same_start = refl;
          compressed = (ground (arith, w.same_start), w.compressed);
          last = w.last;
          ends = w.ends;
          same_type = w.same_type;
          verbatim = w.verbatim;
        })

  -- Of the deltas of an object and one more.
  pub record Queued (old : Deltas V) (d : Delta V) (new : Deltas V) : Type ℓ where
    pub compressed : Compressed new
    pub not_empty : 0 < length new
    pub last : Delta V
    pub ends : newest new ≡ some last
    pub same_type : last.delta_type ≡ d.delta_type
    pub verbatim : gone d ≡ false → last ≡ d

  pub dedup_lem :
      (old : Deltas V) (d : Delta V) → Compressed old → Queued old d (dedup_deltas (old ++ d ∷ []))
  unfolding dedup_deltas newest
  dedup_lem [] d h = record {
    compressed = tt;
    not_empty = omega arith;
    last = d;
    ends = refl;
    same_type = refl;
    verbatim = λ k. refl;
  }
  dedup_lem (b ∷ l) d h =
      let w = dedup_more b l d h in
      rw w.shape (record {
        compressed = w.compressed;
        not_empty = omega arith;
        last = w.last;
        ends = w.ends;
        same_type = w.same_type;
        verbatim = w.verbatim;
      })
