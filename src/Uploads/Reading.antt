-- ===== src/Uploads/Reading.antt =====
-- `read_upload_bounded` and `receive_upload`. The stream is the rest of the body; `portion n rest` is the
-- number of bytes that a read of at most `n` gives. The loop has fuel, which `max_bytes + 1` never uses
-- up. The spool is the text written so far, and the digest is taken of it at the end.
use document_intelligence_mv.Prelude.{
  ℕ, zero, suc, ◌+◌, ◌-◌, ◌≤◌, ◌≡◌, ◌∙◌, refl, ap, min, true, false, Option, none, some, [], ◌∷◌,
  ◌++◌, Text, codes, is_empty, length, take, drop, if◌then◌else◌, ltb, Bool-cases, inl, inr, arith,
}
use document_intelligence_mv.Errors.{Result, returns, raises, file_too_large, ◌>>=◌}
use document_intelligence_mv.Uploads.{Libraries, ValidatedUpload, validate_upload}

-- What a stream documents: before its end, a read gives something.
pub record IsStream (portion : ℕ → Text → ℕ) : Type 0 where
  pub some_bytes : (n : ℕ) (c : ℕ) (rest : Text) → 1 ≤ n → 1 ≤ portion n (c ∷ rest)

-- `file.filename or "upload"`
abbrev pub client_name : Option Text → Text
client_name none = codes "upload"
client_name (some name) = if is_empty name then codes "upload" else name

module _ (portion : ℕ → Text → ℕ) (max_bytes : ℕ) (chunk_size : ℕ) where
  -- The loop; `none` is a loop that was cut off.
  unfoldable pub read_loop : ℕ → ℕ → Text → Text → Option (Result Text)
  read_loop zero total spool rest = none
  read_loop (suc fuel) total spool rest =
      let k = portion (min chunk_size ((max_bytes - total) + 1)) rest in
      let chunk = take k rest in
      let more = read_loop fuel (total + length chunk) (spool ++ chunk) (drop k rest) in
      if is_empty chunk
      then some (returns spool)
      else (if ltb max_bytes (total + length chunk) then some (raises file_too_large) else more)

  abbrev with_hash : Libraries → Option (Result Text) → Option (Result (Text × Text))
  with_hash l none = none
  with_hash l (some (raises e)) = some (raises e)
  with_hash l (some (returns content)) = some (returns (content, l.sha256 content))

  unfoldable pub read_upload_bounded : Libraries → Text → Option (Result (Text × Text))
  read_upload_bounded l body = with_hash l (read_loop (suc max_bytes) 0 [] body)

  abbrev validated :
      Libraries
      → Text
      → Option Text
      → Option (Result (Text × Text))
      → Option (Result (ValidatedUpload × Text))
  validated l filename declared none = none
  validated l filename declared (some (raises e)) = some (raises e)
  validated l filename declared (some (returns (content, file_hash))) = some (
      validate_upload l filename declared content max_bytes (some file_hash) >>= λ upload.
      returns (upload, content))

  unfoldable pub receive_upload :
      Libraries → Option Text → Option Text → Text → Option (Result (ValidatedUpload × Text))
  receive_upload l filename declared body =
      validated l (client_name filename) declared (read_upload_bounded l body)

  append_nil : (s : Text) → s ++ [] ≡ s
  append_nil [] = refl
  append_nil (c ∷ s) = ap (λ x. c ∷ x) (append_nil s)

  append_assoc : (r s t : Text) → (r ++ s) ++ t ≡ r ++ (s ++ t)
  append_assoc [] s t = refl
  append_assoc (c ∷ r) s t = ap (λ x. c ∷ x) (append_assoc r s t)

  take-drop : (k : ℕ) (s : Text) → take k s ++ drop k s ≡ s
  take-drop zero s = refl
  take-drop (suc k) [] = refl
  take-drop (suc k) (c ∷ s) = ap (λ x. c ∷ x) (take-drop k s)

  length_split : (k : ℕ) (s : Text) → length (take k s) + length (drop k s) ≡ length s
  length_split zero s = omega arith
  length_split (suc k) [] = omega arith
  length_split (suc k) (c ∷ s) = omega (arith, length_split k s)

  take-filled : (k : ℕ) (c : ℕ) (s : Text) → 1 ≤ k → is_empty (take k (c ∷ s)) ≡ false
  take-filled zero c s h = absurd (omega (arith, h))
  take-filled (suc k) c s h = refl

  take-nil : (k : ℕ) → ◌≡◌ {A = Text} (take k []) []
  take-nil zero = refl
  take-nil (suc k) = refl

  length-filled : (s : Text) → is_empty s ≡ false → 1 ≤ length s
  length-filled [] h = cc h
  length-filled (c ∷ s) h = omega arith

  -- From any turn on, with fuel for the bytes that may still be taken.
  read_loop_lem :
      IsStream portion
      → 1 ≤ chunk_size
      → (fuel total : ℕ) (spool rest : Text) → total ≤ max_bytes
      → suc max_bytes ≤ fuel + total
      → read_loop fuel total spool rest
        ≡ some (
            if ltb max_bytes (total + length rest)
            then raises file_too_large
            else returns (spool ++ rest))
  unfolding read_loop
  read_loop_lem i b zero total spool rest t f = absurd (omega (arith, t, f))
  read_loop_lem i b (suc fuel) total spool [] t f =
      let small : ltb max_bytes (total + 0) ≡ false = ground (arith, t) in
      rw (take-nil (portion (min chunk_size ((max_bytes - total) + 1)) []), small)
        (rw (append_nil spool) refl)
  read_loop_lem i b (suc fuel) total spool (c ∷ rest) t f =
      elim (Bool-cases (ltb max_bytes (total + length chunk))) [
        | inl big ↦
            let over : ltb max_bytes (total + length (c ∷ rest)) ≡ true =
              ground (arith, big, length_split k (c ∷ rest)) in
            rw (filled, big, over)
        | inr small ↦
            let below : total + length chunk ≤ max_bytes = ground (arith, small) in
            let fuelled : suc max_bytes ≤ fuel + (total + length chunk) =
              omega (arith, f, length-filled chunk filled) in
            rw (filled, small)
              (read_loop_lem i b fuel (total + length chunk) (spool ++ chunk) (drop k (c ∷ rest))
                  below fuelled
                ∙ together)
      ]
    where
      k : ℕ
      k = portion (min chunk_size ((max_bytes - total) + 1)) (c ∷ rest)

      chunk : Text
      chunk = take k (c ∷ rest)

      filled : is_empty chunk ≡ false
      filled =
          take-filled k c rest
            (i.some_bytes (min chunk_size ((max_bytes - total) + 1)) c rest (omega (arith, b)))

      together :
          ◌≡◌ {A = Option (Result Text)}
            (some (
              if ltb max_bytes ((total + length chunk) + length (drop k (c ∷ rest)))
              then raises file_too_large
              else returns ((spool ++ chunk) ++ drop k (c ∷ rest))))
            (some (
              if ltb max_bytes (total + length (c ∷ rest))
              then raises file_too_large
              else returns (spool ++ c ∷ rest)))
      together =
          let sum : (total + length chunk) + length (drop k (c ∷ rest))
              ≡ total + length (c ∷ rest) =
            omega (arith, length_split k (c ∷ rest)) in
          rw (sum, append_assoc spool chunk (drop k (c ∷ rest)), take-drop k (c ∷ rest)) refl

  -- For a stream that gives something before its end, and a chunk size of at least one byte, the reading of
  -- an upload ends: a body of at most `max_bytes` bytes is returned whole with its digest, a longer
  -- one is refused as too large, however the stream cuts it into portions.
  pub read_upload_bounded_lem :
      IsStream portion
      → 1 ≤ chunk_size
      → (l : Libraries) (body : Text)
      → read_upload_bounded l body
        ≡ some (
            if ltb max_bytes (length body)
            then raises file_too_large
            else returns (body, l.sha256 body))
  unfolding read_upload_bounded
  read_upload_bounded_lem i b l body = elim (Bool-cases (ltb max_bytes (length body))) [
    | inl t ↦
        let over : ltb max_bytes (0 + length body) ≡ true = ground (arith, t) in
        rw (read_loop_lem i b (suc max_bytes) 0 [] body (omega arith) (omega arith)) (rw (over, t))
    | inr t ↦
        let within : ltb max_bytes (0 + length body) ≡ false = ground (arith, t) in
        rw (read_loop_lem i b (suc max_bytes) 0 [] body (omega arith) (omega arith))
          (rw (within, t))
  ]
