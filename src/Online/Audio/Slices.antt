-- ===== src/Online/Audio/Slices.antt =====
-- The buffer against the stream that it holds: one list of samples from `start_sample` on.
use funasr_api.Prelude.{
  ℕ, ◌+◌, ◌-◌, ◌≤◌, ◌<◌, ◌≡◌, refl, ap, ap₂, sym, ◌∙◌, ◌||◌, not, ◌⊎◌, inl, inr, List, [], ◌∷◌,
  ◌++◌, arith, ltb, leb, length, take, drop, min, max, concat, Bool-cases, take-zero, drop-zero,
  take-nil, drop-nil, take-drop-append, drop-append, take_all, drop_all, take-min, drop-drop,
  length-append, length-drop,
}
use mathlib.Core.List.{append-nil, append_assoc}
use funasr_api.Online.Audio.{
  Buffer, has_items, append, cut, collect, slice, drop_chunks, drop_before,
}

module _ {ℓ} {A : Type ℓ} where
  -- The samples that the buffer still holds.
  abbrev pub held : Buffer A → List A
  held b = concat b.chunks

  -- The offsets agree with the samples.
  abbrev pub IsValid : Buffer A → Type 0
  IsValid b = b.total_samples ≡ b.start_sample + length (held b)

  concat-append : (xss yss : List (List A)) → concat (xss ++ yss) ≡ concat xss ++ concat yss
  concat-append [] yss = refl
  concat-append (xs ∷ xss) yss =
      ap (λ zs. xs ++ zs) (concat-append xss yss) ∙ sym (append_assoc xs (concat xss) (concat yss))

  -- A chunk that lies before the piece adds nothing to it.
  skip_chunk :
      (n k : ℕ) (xs ys : List A)
      → length xs ≤ k
      → take n (drop k (xs ++ ys)) ≡ take n (drop (k - length xs) ys)
  skip_chunk n k xs ys h =
      take-drop-append n k xs ys
      ∙ ap (λ zs. take n zs ++ take (n - (length xs - k)) (drop (k - length xs) ys))
          (drop_all k xs h)
      ∙ ap (λ zs. zs ++ take (n - (length xs - k)) (drop (k - length xs) ys)) (take-nil n)
      ∙ ap (λ i. take i (drop (k - length xs) ys))
          (let e : n - (length xs - k) ≡ n = omega arith in e)

  module _ (start end current : ℕ) (chunk : List A) (chunks : List (List A)) (h : start < end)
      (rest : collect start end (current + length chunk) chunks
        ≡ take
            (end - max start (current + length chunk))
            (drop (start - (current + length chunk)) (concat chunks))) where
    collect_skip :
        length chunk ≤ start - current
        → collect start end (current + length chunk) chunks
          ≡ take (end - max start current) (drop (start - current) (chunk ++ concat chunks))
    collect_skip past =
        rest
        ∙ ap₂ (λ n k. take n (drop k (concat chunks)))
            (let e : end - max start (current + length chunk) ≡ end - max start current =
                omega arith in
              e)
            (let e : start - (current + length chunk) ≡ start - current - length chunk =
                omega arith in
              e)
        ∙ sym (skip_chunk (end - max start current) (start - current) chunk (concat chunks) past)

    collect_piece :
        start < current + length chunk
        → current < end
        → cut (start - current) (min (end - current) (length chunk)) chunk
            ++ collect start end (current + length chunk) chunks
          ≡ take (end - max start current) (drop (start - current) (chunk ++ concat chunks))
    collect_piece here within =
        let n : ℕ = end - max start current in
        let k : ℕ = start - current in
        let same_length : min (end - current) (length chunk) - k ≡ min n (length (drop k chunk)) =
          omega (arith, length-drop k chunk) in
        ap₂ ◌++◌ (ap (λ i. take i (drop k chunk)) same_length ∙ take-min n (drop k chunk)) (
          rest
          ∙ ap₂ (λ i j. take i (drop j (concat chunks)))
              (let e : end - max start (current + length chunk) ≡ n - (length chunk - k) =
                  omega arith in
                e)
              (let e : start - (current + length chunk) ≡ k - length chunk = omega arith in e))
        ∙ sym (take-drop-append n k chunk (concat chunks))

  -- What the loop of `slice` joins is one piece of the stream.
  collect_lem :
      (start end current : ℕ) (chunks : List (List A))
      → start < end
      → collect start end current chunks
        ≡ take (end - max start current) (drop (start - current) (concat chunks))
  unfolding collect
  collect_lem start end current [] h = sym (
      ap (take (end - max start current)) (drop-nil (start - current))
      ∙ take-nil (end - max start current))
  collect_lem start end current (chunk ∷ chunks) h =
      let rest = collect_lem start end (current + length chunk) chunks h in
      elim (Bool-cases (leb (current + length chunk) start)) [
        | inl past ↦ rw past (collect_skip start end current chunk chunks h rest (ground arith))
        | inr here ↦ rw here (elim (Bool-cases (leb end current)) [
          | inl beyond ↦ rw beyond (sym (take-zero _ _ (ground arith)))
          | inr within ↦
              rw within
                (elim (Bool-cases (ltb (start - current) (min (end - current) (length chunk)))) [
                  | inl some_piece ↦ rw some_piece (
                      collect_piece start end current chunk chunks h rest (ground arith)
                        (ground arith))
                  | inr no_piece ↦
                      rw no_piece
                        (collect_skip start end current chunk chunks h rest (ground arith))
                ])
        ])
      ]

  -- `slice` returns the requested samples that the buffer holds: those of its stream from the
  -- later of the two starts to the earlier of the two ends.
  pub slice_lem :
      (start_sample end_sample : ℕ) (b : Buffer A)
      → slice start_sample end_sample b
        ≡ take
            (min end_sample b.total_samples - max start_sample b.start_sample)
            (drop (start_sample - b.start_sample) (held b))
  unfolding slice
  slice_lem s e b =
      let start : ℕ = max s b.start_sample in
      let end : ℕ = min e b.total_samples in
      elim (Bool-cases (leb end start)) [
        | inl none_left ↦ rw none_left (sym (take-zero _ _ (ground arith)))
        | inr some_left ↦ rw some_left (
            collect_lem start end b.start_sample b.chunks (ground arith)
            ∙ ap₂ (λ i j. take i (drop j (held b)))
                (let e' : end - max start b.start_sample ≡ end - start = omega arith in e')
                (let e' : start - b.start_sample ≡ s - b.start_sample = omega arith in e'))
      ]

  -- What `drop_before` keeps of the chunks is the end of the stream.
  drop_chunks_lem :
      (target current : ℕ) (chunks : List (List A))
      → concat (drop_chunks target current chunks) ≡ drop (target - current) (concat chunks)
  unfolding drop_chunks
  drop_chunks_lem target current [] = sym (drop-nil (target - current))
  drop_chunks_lem target current (chunk ∷ chunks) =
      let rest = drop_chunks_lem target (current + length chunk) chunks in
      let k : ℕ = target - current in
      let whole = drop-append k chunk (concat chunks) in
      let same : target - (current + length chunk) ≡ k - length chunk = omega arith in
      elim (Bool-cases (leb (current + length chunk) target)) [
        | inl past ↦ rw past (
            rest
            ∙ ap (λ i. drop i (concat chunks)) same
            ∙ sym (
                whole
                ∙ ap (λ zs. zs ++ drop (k - length chunk) (concat chunks))
                    (drop_all k chunk (ground arith))))
        | inr here ↦ rw here (elim (Bool-cases (ltb current target)) [
          | inl inside ↦ rw inside (
              ap (λ zs. drop k chunk ++ zs) (rest ∙ ap (λ i. drop i (concat chunks)) same)
              ∙ sym whole)
          | inr before ↦ rw before (
              ap (λ zs. chunk ++ zs) (rest ∙ drop-zero _ (concat chunks) (ground arith))
              ∙ sym (drop-zero k (chunk ++ concat chunks) (ground arith)))
        ])
      ]

  pub append-IsValid : (audio : List A) (b : Buffer A) → IsValid b → IsValid (append audio b)
  unfolding append
  append-IsValid audio b h = elim (Bool-cases (has_items audio)) [
    | inl some_audio ↦ rw some_audio (
        rw (concat-append b.chunks (audio ∷ []))
          (omega (arith, length-append (concat b.chunks) (audio ++ []), length-append audio [])))
    | inr no_audio ↦ rw no_audio h
  ]

  -- Where the buffer starts after `drop_before`, and what it then holds.
  pub record Dropped (i : ℕ) (b b' : Buffer A) : Type ℓ where
    pub total : b'.total_samples ≡ b.total_samples
    pub start :
        (b'.start_sample ≡ b.start_sample)
        ⊎ (b'.start_sample ≡ max b.start_sample (min i b.total_samples))
    pub rest : held b' ≡ drop (b'.start_sample - b.start_sample) (held b)

  pub drop_before-Dropped : (i : ℕ) (b : Buffer A) → Dropped i b (drop_before i b)
  unfolding drop_before
  drop_before-Dropped i b =
      let target : ℕ = max b.start_sample (min i b.total_samples) in
      elim (Bool-cases (leb target b.start_sample || not (has_items b.chunks))) [
        | inl nothing ↦ rw nothing (record {
          total = refl;
          start = inl refl;
          rest = sym (drop-zero _ (held b) (omega arith));
        })
        | inr some_chunks ↦ rw some_chunks (record {
          total = refl;
          start = inr refl;
          rest = drop_chunks_lem target b.start_sample b.chunks;
        })
      ]

  -- `drop_before` keeps the offsets in agreement with the samples.
  pub drop_before-IsValid : (i : ℕ) (b : Buffer A) → IsValid b → IsValid (drop_before i b)
  drop_before-IsValid i b h =
      let d = drop_before-Dropped i b in
      omega (
        arith,
        d.total,
        d.start,
        ap length d.rest,
        length-drop ((drop_before i b).start_sample - b.start_sample) (held b),
      )

  -- No sample at or after the offset given to `drop_before` is lost: a slice that starts
  -- there or later is the same before and after.
  pub slice-drop_before :
      (i s e : ℕ) (b : Buffer A) → i ≤ s → slice s e (drop_before i b) ≡ slice s e b
  slice-drop_before i s e b h =
      let b' = drop_before i b in
      let d = drop_before-Dropped i b in
      let shift : ℕ = b'.start_sample - b.start_sample in
      let samples : drop (s - b'.start_sample) (held b') ≡ drop (s - b.start_sample) (held b) =
        ap (drop (s - b'.start_sample)) d.rest
        ∙ drop-drop (s - b'.start_sample) shift (held b)
        ∙ ap (λ k. drop k (held b))
            (let same : s - b'.start_sample + shift ≡ s - b.start_sample = omega (arith, d.start) in
              same) in
      let size : min e b'.total_samples - max s b'.start_sample
          ≡ min e b.total_samples - max s b.start_sample =
        omega (arith, d.start, d.total) in
      slice_lem s e b' ∙ ap₂ take size samples ∙ sym (slice_lem s e b)

  pub held-append : (audio : List A) (b : Buffer A) → held (append audio b) ≡ held b ++ audio
  unfolding append
  held-append [] b = sym (append-nil (held b))
  held-append (x ∷ xs) b =
      concat-append b.chunks ((x ∷ xs) ∷ []) ∙ ap (λ zs. held b ++ zs) (append-nil (x ∷ xs))

  pub append_offsets :
      (audio : List A) (b : Buffer A)
      → ((append audio b).start_sample ≡ b.start_sample)
        × ((append audio b).total_samples ≡ b.total_samples + length audio)
  unfolding append
  append_offsets [] b = (refl, omega arith)
  append_offsets (x ∷ xs) b = (refl, refl)

  -- After `append` the slice from the old total to the new one is exactly the new audio.
  pub slice-append :
      (audio : List A) (b : Buffer A)
      → IsValid b
      → slice b.total_samples (b.total_samples + length audio) (append audio b) ≡ audio
  slice-append audio b h =
      let b' = append audio b in
      let offsets = append_offsets audio b in
      let t = b.total_samples in
      let samples : drop (t - b'.start_sample) (held b') ≡ audio =
        ap₂ drop (let e : t - b'.start_sample ≡ length (held b) = omega (arith, offsets.0) in e)
          (held-append audio b)
        ∙ drop-append (length (held b)) (held b) audio
        ∙ ap (λ zs. zs ++ drop (length (held b) - length (held b)) audio)
            (drop_all (length (held b)) (held b) (omega arith))
        ∙ drop-zero _ audio (omega arith) in
      slice_lem t (t + length audio) b'
      ∙ ap (take (min (t + length audio) b'.total_samples - max t b'.start_sample)) samples
      ∙ take_all _ audio (omega (arith, offsets.0, offsets.1))
