-- ===== src/Agent/RoundTrip.antt =====
-- An audit entry is read back.
use Prim.Native.String
use asl3_api.Prelude.{
  ℕ, suc, ◌-◌, Char, String, code, Bool, true, false, not, Option, none, some, List, [], ◌∷◌, ◌++◌,
  length, drop, codes, format, all_chars, cons_head, is_empty, ltb, ◌==◌, if◌then◌else◌, nil-append,
  cons-append, append_assoc, length-append, ◌≡◌, refl, ap, sym, ◌∙◌, arith, inl, inr, Bool-cases,
}
use asl3_api.Config.{pos}
use asl3_api.Software.{strip, strip_right}
use asl3_api.Transport.{starts}
use asl3_api.Agent.Newlines.{
  is_not_newline, ends_newline, universal_line, universal-append, ends_newline-universal,
}
use asl3_api.Agent.Audit.{
  Entry, entry_text, appended, audit_log, universal, readlines, recent, cut_bar, read_entry,
  read_entries, get_audit_log,
}

abbrev pub is_not_bar : ℕ → Bool
is_not_bar n = not (n == b'|')

abbrev line_step : Char → List String → List String
line_step c rest = if code c == 10 then "\n" ∷ rest else cons_head c rest

line_step-append :
    (c : Char) (xs ys : List String) {z : String} {zs : List String}
    → xs ≡ z ∷ zs
    → line_step c (xs ++ ys) ≡ line_step c xs ++ ys
line_step-append c [] ys e = absurd (ground arith)
line_step-append c (x ∷ xs) ys e = elim (Bool-cases (code c == 10)) [
  | inl newline ↦ rw newline refl
  | inr other ↦ rw other refl
]

readlines_filled :
    (c : Char) (s : String)
    → (z : String) × (zs : List String) × (readlines (String.◌∷◌ c s) ≡ z ∷ zs)
unfolding readlines
readlines_filled c s = elim (Bool-cases (code c == 10)) [
  | inl newline ↦ ("\n", readlines s, rw newline refl)
  | inr other ↦ let (z, zs, e) = headed (readlines s) in (z, zs, rw other e)
]
  where
    headed : (rest : List String) → (z : String) × (zs : List String) × (cons_head c rest ≡ z ∷ zs)
    headed [] = (_, _, refl)
    headed (x ∷ xs) = (_, _, refl)

strip_right-newline : (s : String) → strip_right (String.◌++◌ s "\n") ≡ strip_right s
unfolding strip_right
strip_right-newline String.[] = refl
strip_right-newline (String.◌∷◌ c s) = rw (cons-append, strip_right-newline s) refl

strip-newline : (s : String) → strip (String.◌++◌ s "\n") ≡ strip s
unfolding strip strip_right
strip-newline String.[] = refl
strip-newline (String.◌∷◌ c s) = rw (cons-append, strip-newline s, strip_right-newline s) refl

readlines_line :
    (s : String)
    → all_chars is_not_newline s ≡ true
    → readlines (String.◌++◌ s "\n") ≡ String.◌++◌ s "\n" ∷ []
unfolding readlines all_chars
readlines_line String.[] h = rw nil-append refl
readlines_line (String.◌∷◌ c s) h = elim (Bool-cases (code c == 10)) [
  | inl newline ↦ absurd (ground (arith, h, newline))
  | inr other ↦ rw (cons-append, readlines_line s (ground (arith, h, other)), other) refl
]

readlines-append :
    (a b : String)
    → ends_newline a ≡ true
    → readlines (String.◌++◌ a b) ≡ readlines a ++ readlines b
unfolding readlines
readlines-append String.[] b h = rw nil-append refl
readlines-append (String.◌∷◌ c String.[]) b h = rw (cons-append, nil-append, h) refl
readlines-append (String.◌∷◌ c (String.◌∷◌ d s)) b h =
    let (z, zs, filled) = readlines_filled d s in
    ap readlines (cons-append c (String.◌∷◌ d s) b)
    ∙ ap (line_step c) (readlines-append (String.◌∷◌ d s) b h)
    ∙ line_step-append c (readlines (String.◌∷◌ d s)) (readlines b) filled

second_not_bar :
    (t rest : String)
    → all_chars is_not_bar t ≡ true
    → starts (b'|' ∷ b' ' ∷ []) (codes (String.◌++◌ t (String.◌++◌ " | " rest))) ≡ false
unfolding all_chars starts
second_not_bar String.[] rest h = rw (nil-append, cons-append) refl
second_not_bar (String.◌∷◌ c t) rest h = rw cons-append (ground (arith, h))

-- The first bar of a text whose beginning has none.
cut_bar-append :
    (t rest : String)
    → all_chars is_not_bar t ≡ true
    → cut_bar (String.◌++◌ t (String.◌++◌ " | " rest)) ≡ some (t, rest)
unfolding cut_bar all_chars starts
cut_bar-append String.[] rest h =
    rw (nil-append, cons-append, cons-append, cons-append, nil-append) refl
cut_bar-append (String.◌∷◌ c t) rest h =
    let plain : all_chars is_not_bar t ≡ true = ground (arith, h) in
    let later = cut_bar-append t rest plain in
    let no_bar = second_not_bar t rest plain in
    elim (Bool-cases (b' ' == code c)) [
      | inl space ↦ rw (cons-append, space, no_bar, later) refl
      | inr other ↦ rw (cons-append, other, later) refl
    ]

-- The line of an entry.
abbrev pub line_of : String → String → String → String
line_of timestamp command details =
    String.◌++◌ timestamp (String.◌++◌ " | " (String.◌++◌ command (String.◌++◌ " | " details)))

entry_text-line_of :
    (timestamp command details : String)
    → entry_text timestamp command details ≡ String.◌++◌ (line_of timestamp command details) "\n"
unfolding format
entry_text-line_of timestamp command details =
    sym (rw (append_assoc, append_assoc, append_assoc, append_assoc) refl)

line_filled : (t rest : String) → is_empty (String.◌++◌ t (String.◌++◌ " | " rest)) ≡ false
line_filled String.[] rest = rw (nil-append, cons-append) refl
line_filled (String.◌∷◌ c t) rest = rw cons-append refl

drop-append : (xs ys : List String) → drop (length xs) (xs ++ ys) ≡ ys
drop-append [] ys = refl
drop-append (x ∷ xs) ys = drop-append xs ys

recent_last : (xs : List String) (y : String) → recent (pos 1) (xs ++ y ∷ []) ≡ y ∷ []
unfolding recent
recent_last [] y = refl
recent_last (x ∷ xs) y =
    let more = length-append xs (y ∷ []) in
    let long : ltb 1 (suc (length (xs ++ y ∷ []))) ≡ true = ground (arith, more) in
    let all_but_one : suc (length (xs ++ y ∷ [])) - 1 ≡ suc (length xs) = omega (arith, more) in
    rw (long, all_but_one) (drop-append xs (y ∷ []))

abbrev pub entry_of : String → String → String → Entry
entry_of timestamp command details = record {
  timestamp = timestamp;
  command = some command;
  details = some details;
  raw = line_of timestamp command details;
}

read_entry-line_of :
    (timestamp command details : String)
    → all_chars is_not_bar timestamp ≡ true
    → all_chars is_not_bar command ≡ true
    → read_entry (line_of timestamp command details) ≡ entry_of timestamp command details
unfolding read_entry
read_entry-line_of timestamp command details t c =
    rw
      (
        cut_bar-append timestamp (String.◌++◌ command (String.◌++◌ " | " details)) t,
        cut_bar-append command details c,
      )
      refl

read_entries_last :
    (line : String)
    → strip line ≡ line
    → is_empty line ≡ false
    → read_entries (String.◌++◌ line "\n" ∷ []) ≡ read_entry line ∷ []
unfolding read_entries
read_entries_last line stripped filled = rw (strip-newline line, stripped, filled) refl

abbrev pub is_whole : Option String → Bool
is_whole none = true
is_whole (some log) = ends_newline log

abbrev lines_before : Option String → List String
lines_before none = []
lines_before (some log) = readlines (universal log)

readlines-appended :
    (log : Option String) (line : String)
    → is_whole log ≡ true
    → all_chars is_not_newline line ≡ true
    → readlines (universal (appended log (String.◌++◌ line "\n")))
      ≡ lines_before log ++ String.◌++◌ line "\n" ∷ []
readlines-appended none line whole plain =
    ap readlines (universal_line line plain) ∙ readlines_line line plain
readlines-appended (some log) line whole plain =
    ap readlines (
      universal-append log (String.◌++◌ line "\n") whole
      ∙ ap (λ t. String.◌++◌ (universal log) t) (universal_line line plain))
    ∙ readlines-append (universal log) (String.◌++◌ line "\n") (ends_newline-universal log whole)
    ∙ ap (λ ls. readlines (universal log) ++ ls) (readlines_line line plain)

-- The entry that was last written to the audit log is read back with its three fields, if its
-- timestamp and its command have no bar, its line has no carriage return, no line feed inside and no white
-- space at its ends, and the log ended with a line end.
pub get_audit_log-audit_log :
    (log : Option String) (timestamp command details : String)
    → is_whole log ≡ true
    → all_chars is_not_bar timestamp ≡ true
    → all_chars is_not_bar command ≡ true
    → all_chars is_not_newline (line_of timestamp command details) ≡ true
    → strip (line_of timestamp command details) ≡ line_of timestamp command details
    → get_audit_log (pos 1) (audit_log true timestamp command details log)
      ≡ entry_of timestamp command details ∷ []
unfolding get_audit_log audit_log
get_audit_log-audit_log log timestamp command details whole t c plain stripped =
    let line = line_of timestamp command details in
    ap (λ text. read_entries (recent (pos 1) (readlines (universal (appended log text)))))
      (entry_text-line_of timestamp command details)
    ∙ ap (λ ls. read_entries (recent (pos 1) ls)) (readlines-appended log line whole plain)
    ∙ ap read_entries (recent_last (lines_before log) (String.◌++◌ line "\n"))
    ∙ read_entries_last line stripped
        (line_filled timestamp (String.◌++◌ command (String.◌++◌ " | " details)))
    ∙ ap (λ e. e ∷ []) (read_entry-line_of timestamp command details t c)
