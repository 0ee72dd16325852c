-- ===== src/Cmd/Capture/Frames.antt =====
-- cmd/salt-events/capture.go, `copyFrames`: what is recorded is whole frames.
use go_salt_events.Base.{
  Bool-cases, Bytes, Option-cases, [], ap, append-nil, append_assoc, arith, drop, false, inl, inr,
  length, length-take, ltb, ltb→lt, refl, some, suc, sym, take, take-append-drop, zero, ℕ, ◌++◌,
  ◌+◌, ◌<◌, ◌∙◌, ◌∷◌, ◌≡◌, ◌≤◌,
}
use go_salt_events.Saltipc.Frame.{uint32_of}
use go_salt_events.Cmd.Capture.{
  Answers, CopyEnd, body_not_written, copied, copy_frames, desynced, length_not_written,
  max_capture_frame, no_body, no_length,
}

-- `k` frames, each with its prefix and as many bytes as that says.
abbrev pub IsFrames : ℕ → Bytes → Type 0
IsFrames zero w = w ≡ []
IsFrames (suc k) w =
    (a : ℕ) × (b : ℕ) × (c : ℕ) × (d : ℕ) × (body : Bytes) × (rest : Bytes) × (w
      ≡ a ∷ b ∷ c ∷ d ∷ (body ++ rest))
    × (length body ≡ uint32_of a b c d)
    × (uint32_of a b c d ≤ max_capture_frame)
    × IsFrames k rest

-- The stream goes on with a prefix that claims `size` bytes, and with `body` after it.
pub record Claims (size : ℕ) (body s : Bytes) : Type 0 where
  pub a : ℕ
  pub b : ℕ
  pub c : ℕ
  pub d : ℕ
  pub prefixed : s ≡ a ∷ b ∷ c ∷ d ∷ body
  pub claimed : uint32_of a b c d ≡ size

-- What was written last is the beginning of one more frame, at a write that failed.
pub record IsTorn (dst : Answers) (torn left rest : Bytes) : Type 0 where
  pub more : Bytes
  pub one : IsFrames 1 (torn ++ more)
  pub goes_on : rest ≡ more ++ left
  pub write : ℕ
  pub taken : ℕ
  pub fails : dst write ≡ some taken

-- Why it ends after `k` frames of `n`, with `torn` written after them, `left` left of the stream and
-- `rest` following what was written.
abbrev pub Ends : Answers → CopyEnd → ℕ → ℕ → Bytes → Bytes → Bytes → Type 0
Ends dst copied k n torn left rest = (k ≡ n) × (torn ≡ []) × (left ≡ rest)
Ends dst no_length k n torn left rest = (k < n) × (torn ≡ []) × (length rest < 4)
Ends dst (desynced size) k n torn left rest =
    (k < n) × (torn ≡ []) × (max_capture_frame < size) × Claims size left rest
Ends dst no_body k n torn left rest =
    (k < n)
    × (torn ≡ [])
    × ((size : ℕ) × (body : Bytes) × Claims size body rest × (length body < size))
Ends dst length_not_written k n torn left rest = (k < n) × IsTorn dst torn left rest
Ends dst body_not_written k n torn left rest = (k < n) × IsTorn dst torn left rest

-- What was copied of `n` frames.
pub record Recorded (dst : Answers) (n : ℕ) (s : Bytes) (x : CopyEnd × Bytes × Bytes) : Type 0 where
  pub count : ℕ
  pub frames : Bytes
  pub torn : Bytes
  pub rest : Bytes
  pub whole : IsFrames count frames
  pub written : x.1 ≡ frames ++ torn
  pub verbatim : s ≡ x.1 ++ rest
  pub ending : Ends dst x.0 count n torn x.2 rest

Ends-suc :
    (dst : Answers) (end : CopyEnd) (k n : ℕ) (torn left rest : Bytes)
    → Ends dst end k n torn left rest
    → Ends dst end (suc k) (suc n) torn left rest
Ends-suc dst copied k n torn left rest (same, clean, left_over) = (ap suc same, clean, left_over)
Ends-suc dst no_length k n torn left rest (lt, clean, why) = (omega arith, clean, why)
Ends-suc dst (desynced size) k n torn left rest (lt, clean, large, why) =
    (omega arith, clean, large, why)
Ends-suc dst no_body k n torn left rest (lt, clean, why) = (omega arith, clean, why)
Ends-suc dst length_not_written k n torn left rest (lt, why) = (omega arith, why)
Ends-suc dst body_not_written k n torn left rest (lt, why) = (omega arith, why)

not_less : (a b : ℕ) → ltb a b ≡ false → b ≤ a
not_less a b e = ground arith

module _ (dst : Answers) where
  -- Nothing is written when the stream does not go on with a frame.
  nothing_more :
      (n : ℕ) (s : Bytes) (end : CopyEnd) (left : Bytes)
      → Ends dst end 0 n [] left s
      → Recorded dst n s (end, [], left)
  nothing_more n s end left why = record {
    count = 0;
    frames = [];
    torn = [];
    rest = s;
    whole = refl;
    written = refl;
    verbatim = refl;
    ending = why;
  }

  -- A frame that is there goes before what is copied after it.
  one_more :
      (n a b c d : ℕ) (s : Bytes) (x : CopyEnd × Bytes × Bytes)
      → let size = uint32_of a b c d in
        size ≤ max_capture_frame
        → size ≤ length s
        → Recorded dst n (drop size s) x
        → Recorded dst (suc n) (a ∷ b ∷ c ∷ d ∷ s) (x.0, a ∷ b ∷ c ∷ d ∷ (take size s ++ x.1), x.2)
  one_more n a b c d s (end, written, left) fits enough r =
      let size = uint32_of a b c d in
      let body = take size s in
      record {
        count = suc r.count;
        frames = a ∷ b ∷ c ∷ d ∷ (body ++ r.frames);
        torn = r.torn;
        rest = r.rest;
        whole =
            (a, b, c, d, body, r.frames, refl, omega (arith, length-take size s), fits, r.whole);
        written =
            ap (λ l. a ∷ b ∷ c ∷ d ∷ l)
              (ap (λ l. body ++ l) r.written ∙ sym (append_assoc body r.frames r.torn));
        verbatim =
            ap (λ l. a ∷ b ∷ c ∷ d ∷ l)
              (sym (take-append-drop size s)
                ∙ ap (λ l. body ++ l) r.verbatim
                ∙ sym (append_assoc body written r.rest));
        ending = Ends-suc dst end r.count n r.torn left r.rest r.ending;
      }

  -- A frame that is there, of which only the beginning `torn` is written.
  torn_frame :
      (n a b c d : ℕ) (s torn more : Bytes) (w taken : ℕ)
      → let size = uint32_of a b c d in
        size ≤ max_capture_frame
        → size ≤ length s
        → torn ++ more ≡ a ∷ b ∷ c ∷ d ∷ take size s
        → dst w ≡ some taken
        → (Recorded dst (suc n) (a ∷ b ∷ c ∷ d ∷ s) (length_not_written, torn, drop size s))
          × (Recorded dst (suc n) (a ∷ b ∷ c ∷ d ∷ s) (body_not_written, torn, drop size s))
  torn_frame n a b c d s torn more w taken fits enough split fails =
      let size = uint32_of a b c d in
      let body = take size s in
      let tears : IsTorn dst torn (drop size s) (more ++ drop size s) = record {
        more = more;
        one = (
          a,
          b,
          c,
          d,
          body,
          [],
          split ∙ ap (λ l. a ∷ b ∷ c ∷ d ∷ l) (sym (append-nil body)),
          omega (arith, length-take size s),
          fits,
          refl,
        );
        goes_on = refl;
        write = w;
        taken = taken;
        fails = fails;
      } in
      let spelled : a ∷ b ∷ c ∷ d ∷ s ≡ torn ++ (more ++ drop size s) =
        ap (λ l. a ∷ b ∷ c ∷ d ∷ l) (sym (take-append-drop size s))
        ∙ ap (λ l. l ++ drop size s) (sym split)
        ∙ append_assoc torn more (drop size s) in
      (
        record {
          count = 0;
          frames = [];
          torn = torn;
          rest = more ++ drop size s;
          whole = refl;
          written = refl;
          verbatim = spelled;
          ending = (omega arith, tears);
        },
        record {
          count = 0;
          frames = [];
          torn = torn;
          rest = more ++ drop size s;
          whole = refl;
          written = refl;
          verbatim = spelled;
          ending = (omega arith, tears);
        },
      )

  -- What is written is the stream's first bytes as they came: whole frames, the number asked for when there is
  -- no error; and otherwise fewer, with the reason: the stream is cut in a prefix or in a body, its next prefix
  -- claims more than the bound, or the destination fails at a write. Only then the beginning of one more frame
  -- follows them.
  pub copy_frames-Recorded : (w n : ℕ) (s : Bytes) → Recorded dst n s (copy_frames dst w n s)
  unfolding copy_frames
  copy_frames-Recorded w zero s = nothing_more 0 s copied s (refl, refl, refl)
  copy_frames-Recorded w (suc n) [] =
      nothing_more (suc n) [] no_length [] (omega arith, refl, omega arith)
  copy_frames-Recorded w (suc n) (a ∷ []) =
      nothing_more (suc n) (a ∷ []) no_length [] (omega arith, refl, omega arith)
  copy_frames-Recorded w (suc n) (a ∷ b ∷ []) =
      nothing_more (suc n) (a ∷ b ∷ []) no_length [] (omega arith, refl, omega arith)
  copy_frames-Recorded w (suc n) (a ∷ b ∷ c ∷ []) =
      nothing_more (suc n) (a ∷ b ∷ c ∷ []) no_length [] (omega arith, refl, omega arith)
  copy_frames-Recorded w (suc n) (a ∷ b ∷ c ∷ d ∷ s) =
      let size = uint32_of a b c d in
      let body = take size s in
      let claims : Claims size s (a ∷ b ∷ c ∷ d ∷ s) = record {
        a = a;
        b = b;
        c = c;
        d = d;
        prefixed = refl;
        claimed = refl;
      } in
      elim (Bool-cases (ltb max_capture_frame size)) [
        | inl large ↦ rw large (
            nothing_more (suc n) (a ∷ b ∷ c ∷ d ∷ s) (desynced size) s
              (omega arith, refl, ltb→lt max_capture_frame size large, claims))
        | inr fits ↦ elim (Bool-cases (ltb (length s) size)) [
          | inl short ↦
              rw (fits, short)
                (nothing_more (suc n) (a ∷ b ∷ c ∷ d ∷ s) no_body []
                  (omega arith, refl, (size, s, claims, ltb→lt (length s) size short)))
          | inr enough ↦ elim (Option-cases (dst w)) [
            | inr (k, shut) ↦
                rw (fits, enough, shut)
                  (torn_frame n a b c d s _ (drop k (a ∷ b ∷ c ∷ d ∷ []) ++ body) w k
                    (not_less _ _ fits) (not_less _ _ enough)
                    (sym (append_assoc (take k (a ∷ b ∷ c ∷ d ∷ [])) _ body)
                      ∙ ap (λ l. l ++ body) (take-append-drop k (a ∷ b ∷ c ∷ d ∷ [])))
                    shut).0
            | inl open_now ↦ elim (Option-cases (dst (w + 1))) [
              | inr (k, shut) ↦
                  rw (fits, enough, open_now, shut)
                    (torn_frame n a b c d s _ (drop k body) (w + 1) k (not_less _ _ fits)
                      (not_less _ _ enough) (ap (λ l. a ∷ b ∷ c ∷ d ∷ l) (take-append-drop k body))
                      shut).1
              | inl taken ↦
                  rw (fits, enough, open_now, taken)
                    (one_more n a b c d s (copy_frames dst (w + 2) n (drop size s))
                      (not_less _ _ fits) (not_less _ _ enough)
                      (copy_frames-Recorded (w + 2) n (drop size s)))
            ]
          ]
        ]
      ]
