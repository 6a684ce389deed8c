-- ===== src/Logs/Lines.antt =====
-- src/logs.rs, `push_text`: the lines of a text, whatever the chunks.
use caroba_guard.Prelude.{
  ℕ, ◌+◌, ◌≤◌, ◌≡◌, refl, sym, ap, ◌∙◌, inl, inr, Bool, true, false, ◌||◌, List, [], ◌∷◌, ◌++◌, map,
  append-nil, append_assoc, arith, ltb, Bool-cases, length, take, length-append, take-append_le,
  All, take_all, Bytes, Avoids, from_utf8_lossy,
}
use caroba_guard.Logs.{
  max_log_line_bytes, pop_cr, mark_truncated, push_byte, scan, scan_of, lines_of, push_text,
  DockerStreamMode, DockerLogDecoder, Scan,
}

-- The scan carries its output along and never reads it.
abbrev pub after_lines : List Bytes → Scan → Scan
after_lines before s = record s { output = before ++ s.output }

push_byte-after_lines :
    (limit byte : ℕ) (before : List Bytes) (s : Scan)
    → push_byte limit byte (after_lines before s) ≡ after_lines before (push_byte limit byte s)
unfolding push_byte
push_byte-after_lines limit byte before s = ground (
  arith,
  append_assoc before s.output
      (mark_truncated s.line_truncated (from_utf8_lossy (pop_cr s.line)) ∷ []),
)

scan-after_lines :
    (limit : ℕ) (bytes : Bytes) (before : List Bytes) (s : Scan)
    → scan limit bytes (after_lines before s) ≡ after_lines before (scan limit bytes s)
unfolding scan
scan-after_lines limit [] before s = refl
scan-after_lines limit (b ∷ bytes) before s =
    rw (push_byte-after_lines limit b before s)
      (scan-after_lines limit bytes before (push_byte limit b s))

pub scan-append :
    (limit : ℕ) (a b : Bytes) (s : Scan) → scan limit (a ++ b) s ≡ scan limit b (scan limit a s)
unfolding scan
scan-append limit [] b s = refl
scan-append limit (x ∷ a) b s = scan-append limit a b (push_byte limit x s)

-- A text in two chunks gives the lines of the whole text, and leaves the same decoder.
pub push_text-append :
    (d : DockerLogDecoder) (a b : Bytes)
    → push_text d (a ++ b)
      ≡ ((push_text d a).0 ++ (push_text (push_text d a).1 b).0, (push_text (push_text d a).1 b).1)
unfolding push_text
push_text-append d a b =
    let s : Scan = scan max_log_line_bytes a (scan_of d) in
    ap (lines_of d) (
      scan-append max_log_line_bytes a b (scan_of d)
      ∙ ap (scan max_log_line_bytes b)
          (ap (λ (o : List Bytes). record s { output = o }) (sym (append-nil s.output)))
      ∙ scan-after_lines max_log_line_bytes b s.output (record s { output = [] }))

-- One line as it is sent: cut at the limit, without a carriage return at its end, marked when cut.
abbrev pub render : ℕ → Bytes → Bytes
render limit line =
    mark_truncated (ltb limit (length line)) (from_utf8_lossy (pop_cr (take limit line)))

pub scan_line :
    (limit : ℕ) (line start : Bytes) (out : List Bytes)
    → Avoids b'\n' line
    → (truncated : Bool) → length start ≤ limit
    → scan limit line (record { line = start; line_truncated = truncated; output = out }) ≡ record {
      line = take limit (start ++ line);
      line_truncated = truncated || ltb limit (length start + length line);
      output = out;
    }
unfolding scan push_byte
scan_line limit [] start out h truncated le =
    ground (arith, append-nil start, take_all limit start le)
scan_line limit (b ∷ line) start out h truncated le = elim (Bool-cases (ltb (length start) limit)) [
  | inl e ↦ ground (
    arith,
    append_assoc start (b ∷ []) line,
    length-append start (b ∷ []),
    scan_line limit line (start ++ b ∷ []) out h.1 truncated,
  )
  | inr e ↦ ground (
    arith,
    take-append_le limit start line,
    take-append_le limit start (b ∷ line),
    scan_line limit line start out h.1 true le,
  )
]

-- The text of whole lines.
abbrev pub unlines : List Bytes → Bytes
unlines [] = []
unlines (line ∷ rest) = line ++ b'\n' ∷ unlines rest

scan-unlines :
    (limit : ℕ) (lines : List Bytes) (out : List Bytes)
    → All (Avoids b'\n') lines
    → scan limit (unlines lines) (record { line = []; line_truncated = false; output = out })
      ≡ record { line = []; line_truncated = false; output = out ++ map (render limit) lines }
unfolding scan push_byte
scan-unlines limit [] out h =
    ap (λ (o : List Bytes). record { line = []; line_truncated = false; output = o })
      (sym (append-nil out))
scan-unlines limit (line ∷ rest) out h =
    scan-append limit line (b'\n' ∷ unlines rest)
      (record { line = []; line_truncated = false; output = out })
    ∙ rw (scan_line limit line [] out h.0 false (omega arith)) (
        let e : 0 + length line ≡ length line = omega arith in
        rw e (
          scan-unlines limit rest (out ++ render limit line ∷ []) h.1
          ∙ ap (λ (o : List Bytes). record { line = []; line_truncated = false; output = o })
              (append_assoc out (render limit line ∷ []) (map (render limit) rest))))

-- A decoder between two lines.
abbrev pub at_line_start : DockerStreamMode → Bytes → DockerLogDecoder
at_line_start mode pending = record {
  mode = mode;
  pending = pending;
  line = [];
  line_truncated = false;
}

-- Whole lines, of any length, are sent as `render` says, in order, and nothing is left over.
pub push_text-unlines :
    (mode : DockerStreamMode) (pending : Bytes) (lines : List Bytes)
    → All (Avoids b'\n') lines
    → push_text (at_line_start mode pending) (unlines lines)
      ≡ (map (render max_log_line_bytes) lines, at_line_start mode pending)
unfolding push_text
push_text-unlines mode pending lines h =
    ap (lines_of (at_line_start mode pending)) (scan-unlines max_log_line_bytes lines [] h)
