-- ===== src/Online/Audio/Recording.antt =====
-- What a client of the buffer (src/engine_runtime/engines/online/audio_buffer.py) may rely on: one
-- recording without chunks, of which a beginning may have been forgotten.
use funasr_api.Prelude.{
  ℕ, ◌+◌, ◌-◌, ◌≤◌, ◌≡◌, refl, ap, ap₂, sym, ◌∙◌, List, [], ◌∷◌, ◌++◌, arith, length, take, drop,
  min, max, concat, leb, Bool-cases, false, inl, inr, drop-zero, drop-drop, drop-append,
  length-append, length-drop,
}
use mathlib.Core.List.{append-nil}
use funasr_api.Online.Audio.{Buffer, has_items, reset, replace, append, slice, drop_before}
use funasr_api.Online.Audio.Slices.{
  held, slice_lem, held-append, append_offsets, drop_before-Dropped,
}

-- All samples of the recording, and the first one that is kept.
pub record Recording {ℓ} (A : Type ℓ) : Type ℓ where
  pub samples : List A
  pub kept_from : ℕ

-- The operations that change a buffer.
pub data Op {ℓ} (A : Type ℓ) : Type ℓ where
  replaces appends : List A → Op A
  drops : ℕ → Op A

module _ {ℓ} {A : Type ℓ} where
  -- A recording under an operation: nothing but its samples and its kept part.
  abbrev pub record_op : Op A → Recording A → Recording A
  record_op (replaces audio) r = record { samples = audio; kept_from = 0 }
  record_op (appends audio) r = record r { samples = r.samples ++ audio }
  record_op (drops i) r = record r { kept_from = max r.kept_from (min i (length r.samples)) }

  -- The samples from `s` to `e` that are kept.
  abbrev pub excerpt : ℕ → ℕ → Recording A → List A
  excerpt s e r =
      take (min e (length r.samples) - max s r.kept_from) (drop (max s r.kept_from) r.samples)

  unfoldable pub record_ops : List (Op A) → Recording A
  record_ops [] = record { samples = []; kept_from = 0 }
  record_ops (op ∷ ops) = record_op op (record_ops ops)

  abbrev pub buffer_op : Op A → Buffer A → Buffer A
  buffer_op (replaces audio) b = replace audio
  buffer_op (appends audio) b = append audio b
  buffer_op (drops i) b = drop_before i b

  -- The buffer after operations, the last one first in the list.
  unfoldable pub buffer_ops : List (Op A) → Buffer A
  unfolding replace append drop_before
  buffer_ops [] = reset
  buffer_ops (op ∷ ops) = buffer_op op (buffer_ops ops)

  -- The buffer holds the kept part of the recording.
  pub record Refines (b : Buffer A) (r : Recording A) : Type ℓ where
    pub start : b.start_sample ≡ r.kept_from
    pub total : b.total_samples ≡ length r.samples
    pub within : r.kept_from ≤ length r.samples
    pub same : held b ≡ drop r.kept_from r.samples

  replace-Refines :
      (audio : List A) → Refines (replace audio) (record { samples = audio; kept_from = 0 })
  unfolding replace
  replace-Refines [] = record { start = refl; total = refl; within = omega arith; same = refl }
  replace-Refines (x ∷ xs) = record {
    start = refl;
    total = refl;
    within = omega arith;
    same = append-nil (x ∷ xs);
  }

  append-Refines :
      (audio : List A) (b : Buffer A) (r : Recording A)
      → Refines b r
      → Refines (append audio b) (record_op (appends audio) r)
  append-Refines audio b r h =
      let (start, total) = append_offsets audio b in
      let size = length-append r.samples audio in
      let lo = h.within in
      let before = h.start in
      let all = h.total in
      record {
        start = start ∙ h.start;
        total = omega (arith, start, total, size);
        within = omega (arith, size);
        same =
            held-append audio b
            ∙ ap (◌++ audio) h.same
            ∙ sym (
                drop-append r.kept_from r.samples audio
                ∙ ap (λ k. drop r.kept_from r.samples ++ drop k audio)
                    (let e : r.kept_from - length r.samples ≡ 0 = omega arith in e)
                ∙ ap (λ ys. drop r.kept_from r.samples ++ ys) (drop-zero 0 audio refl));
      }

  -- A buffer without chunks holds nothing, so that nothing of the recording is kept.
  no_chunks : (chunks : List (List A)) → has_items chunks ≡ false → length (concat chunks) ≡ 0
  no_chunks [] e = refl
  no_chunks (c ∷ cs) e = cc

  drop_before_start :
      (i : ℕ) (b : Buffer A) (r : Recording A)
      → Refines b r
      → (drop_before i b).start_sample ≡ max r.kept_from (min i (length r.samples))
  unfolding drop_before
  drop_before_start i b r h =
      let start = h.start in
      let total = h.total in
      let lo = h.within in
      let target : ℕ = max b.start_sample (min i b.total_samples) in
      elim (Bool-cases (leb target b.start_sample)) [
        | inl e ↦ rw e (ground (arith, start, total))
        | inr e ↦ elim (Bool-cases (has_items b.chunks)) [
          | inl some_left ↦ rw (e, some_left) (omega (arith, start, total))
          | inr none_left ↦
              let gone = no_chunks b.chunks none_left in
              let kept = ap length h.same in
              let size = length-drop r.kept_from r.samples in
              absurd (ground (arith, start, total, gone, kept, size, lo, e))
        ]
      ]

  drop_before-Refines :
      (i : ℕ) (b : Buffer A) (r : Recording A)
      → Refines b r
      → Refines (drop_before i b) (record_op (drops i) r)
  drop_before-Refines i b r h =
      let d = drop_before-Dropped i b in
      let now = drop_before_start i b r h in
      let start = h.start in
      let total = d.total in
      let lo = h.within in
      record {
        start = now;
        total = d.total ∙ h.total;
        within = omega arith;
        same =
            d.rest
            ∙ ap (drop ((drop_before i b).start_sample - b.start_sample)) h.same
            ∙ drop-drop _ r.kept_from r.samples
            ∙ ap (λ k. drop k r.samples)
                (let e : (drop_before i b).start_sample - b.start_sample + r.kept_from
                      ≡ max r.kept_from (min i (length r.samples)) =
                    omega arith in
                  e);
      }

  slice-Refines :
      (s e : ℕ) (b : Buffer A) (r : Recording A) → Refines b r → slice s e b ≡ excerpt s e r
  slice-Refines s e b r h =
      let start = h.start in
      let total = h.total in
      slice_lem s e b
      ∙ ap
          (λ ys. take (min e b.total_samples - max s b.start_sample) (drop (s - b.start_sample) ys))
          h.same
      ∙ ap (take (min e b.total_samples - max s b.start_sample))
          (drop-drop (s - b.start_sample) r.kept_from r.samples)
      ∙ ap₂ (λ n k. take n (drop k r.samples))
          (let q : min e b.total_samples - max s b.start_sample
                ≡ min e (length r.samples) - max s r.kept_from =
              omega arith in
            q)
          (let q : s - b.start_sample + r.kept_from ≡ max s r.kept_from = omega arith in q)

  buffer_ops-Refines : (ops : List (Op A)) → Refines (buffer_ops ops) (record_ops ops)
  unfolding buffer_ops record_ops
  buffer_ops-Refines [] = record { start = refl; total = refl; within = omega arith; same = refl }
  buffer_ops-Refines (replaces audio ∷ ops) = replace-Refines audio
  buffer_ops-Refines (appends audio ∷ ops) = append-Refines audio _ _ (buffer_ops-Refines ops)
  buffer_ops-Refines (drops i ∷ ops) = drop_before-Refines i _ _ (buffer_ops-Refines ops)

  -- After any operations the buffer is, to a client, the recording that the same operations make of
  -- plain samples: it has their number as its total, and every slice is the excerpt of the
  -- recording, however the samples lie in chunks.
  pub buffer_refines_recording :
      (ops : List (Op A)) (s e : ℕ)
      → ((buffer_ops ops).total_samples ≡ length (record_ops ops).samples)
        × (slice s e (buffer_ops ops) ≡ excerpt s e (record_ops ops))
  buffer_refines_recording ops s e =
      let h = buffer_ops-Refines ops in (h.total, slice-Refines s e _ _ h)
