-- ===== src/Recorder/Load.antt =====
-- internal/adapter/recording/manager.go: loadExistingSegments, which takes the segments that are in
-- the directory already, and the numbers of the run that goes on.
pub mod Existing
use cap_mesh.Prelude.{
  ℕ, zero, suc, ◌+◌, ◌^◌, ◌≡◌, Bool, true, false, not, ◌&&◌, ◌||◌, List, [], ◌∷◌, ◌++◌, Option,
  none, some, if◌then◌else◌, Result, ok, err, ◌>>=◌, ◌>>◌, ltb, ◌==◌, length, all,
}
use cap_mesh.Text.{Text, text, text_eq, text_lt, is_empty}
use cap_mesh.Domain.{Time}
use cap_mesh.Recording.{is_digit, value}
use cap_mesh.Recorder.{Segment, Recorder, Io, store_usage}

-- A directory entry; Info may fail.
pub record Entry : Type 0 where
  pub name : Text
  pub is_dir : Bool
  pub info : Result Text (ℕ × Time)

-- strings.TrimPrefix, or none without the prefix.
unfoldable pub after_prefix : Text → Text → Option Text
after_prefix [] s = some s
after_prefix (c ∷ p) [] = none
after_prefix (c ∷ p) (d ∷ s) = if c == d then after_prefix p s else none

abbrev has : Option Text → Bool
has none = false
has (some s) = true

unfoldable pub has_prefix : Text → Text → Bool
unfolding after_prefix
has_prefix p s = has (after_prefix p s)

-- strings.HasSuffix
unfoldable pub has_suffix : Text → Text → Bool
unfolding text_eq
has_suffix p [] = is_empty p
has_suffix p (c ∷ s) = text_eq p (c ∷ s) || has_suffix p s

-- The text before the first point.
unfoldable pub before_point : Text → Text
before_point [] = []
before_point (c ∷ s) = if c == b'.' then [] else c ∷ before_point s

-- strconv.Atoi, for the numbers above zero: a sign may stand before the digits.
unfoldable pub atoi : Text → Option ℕ
unfolding value is_digit
atoi [] = none
atoi (c ∷ s) =
    let digits = if c == b'+' then s else c ∷ s in
    if not (is_empty digits) && (all is_digit digits && ltb (value 0 digits) (2 ^ 63))
    then some (value 0 digits)
    else none

unfoldable pub is_recording : Text → Bool
unfolding has_prefix
is_recording name = has_prefix (text "capture-") name || has_prefix (text "trace-") name

unfoldable pub current_prefix : Recorder → Text
current_prefix r = if r.rolling then text "trace-" ++ (r.run_id ++ text "-") else text "capture-"

-- The number in the name of a segment of this run.
unfoldable pub sequence_of : Text → Text → Option ℕ
unfolding after_prefix before_point atoi
sequence_of prefix name = elim (after_prefix prefix name) [
  | none ↦ none
  | some rest ↦ atoi (before_point rest)
]

unfoldable pub raise : Option ℕ → ℕ → ℕ
raise none n = n
raise (some m) n = if ltb n m then m else n

abbrev pub loaded : Text → ℕ → Time → Segment
loaded name size modified = record {
  sequence = 0;
  file = name;
  size = size;
  packet_count = 0;
  captured_bytes = 0;
  started_at = modified;
  finished_at = modified;
}

-- What the loop has found: the segments in the order of the directory, and the highest number.
abbrev pub Found : Type 0
Found = List Segment × ℕ

unfoldable pub remove_stale : Io → Text → Found → Result Text Found
remove_stale io name found = elim (io.remove name) [
  | some e ↦ err (text "remove stale recording segment " ++ (name ++ (text ": " ++ e)))
  | none ↦ ok found
]

unfoldable pub load_segment : Text → Text → Result Text (ℕ × Time) → Found → Result Text Found
unfolding sequence_of raise
load_segment prefix name (err e) found =
    err (text "stat recording segment " ++ (name ++ (text ": " ++ e)))
load_segment prefix name (ok (size, modified)) (segments, sequence) =
    ok (segments ++ (loaded name size modified ∷ []), raise (sequence_of prefix name) sequence)

-- One round of the loop over the entries.
unfoldable pub load_entry : Io → Text → Entry → Found → Result Text Found
unfolding remove_stale load_segment is_recording has_suffix
load_entry io prefix e found =
    if not e.is_dir && (is_recording e.name && has_suffix (text ".pcapng.part") e.name)
    then remove_stale io e.name found
    else if e.is_dir || (not (is_recording e.name) || not (has_suffix (text ".pcapng") e.name))
    then ok found
    else load_segment prefix e.name e.info found

unfoldable pub load_entries : Io → Text → List Entry → Found → Result Text Found
unfolding load_entry
load_entries io prefix [] found = ok found
load_entries io prefix (e ∷ es) found = load_entry io prefix e found >>= load_entries io prefix es

-- The order of sort.Slice.
unfoldable pub is_older : Segment → Segment → Bool
unfolding text_lt
is_older s t =
    if s.finished_at == t.finished_at
    then text_lt s.file t.file
    else ltb s.finished_at t.finished_at

unfoldable pub insert_segment : Segment → List Segment → List Segment
unfolding is_older
insert_segment s [] = s ∷ []
insert_segment s (t ∷ ts) = if is_older t s then t ∷ insert_segment s ts else s ∷ t ∷ ts

unfoldable pub sort_segments : List Segment → List Segment
unfolding insert_segment
sort_segments [] = []
sort_segments (s ∷ ss) = insert_segment s (sort_segments ss)

-- The loop that numbers the segments and sums up their sizes.
unfoldable pub number_segments : ℕ → List Segment → List Segment
number_segments n [] = []
number_segments n (s ∷ ss) = (record s { sequence = suc n }) ∷ number_segments (suc n) ss

unfoldable pub total_size : List Segment → ℕ
total_size [] = 0
total_size (s ∷ ss) = s.size + total_size ss

unfoldable pub with_segments : List Segment → ℕ → Recorder → Recorder
unfolding number_segments total_size sort_segments
with_segments found sequence r =
    let numbered = number_segments 0 (sort_segments found) in
    store_usage (record r {
      sequence = sequence;
      metadata = record r.metadata {
        segments = numbered;
        total_file_size = r.metadata.total_file_size + total_size numbered;
      };
    })

unfoldable pub load_existing_segments :
    Io → Result Text (List Entry) → Recorder → Result Text Recorder
unfolding load_entries current_prefix with_segments
load_existing_segments io entries r = elim entries [
  | err e ↦ err (text "scan recording directory: " ++ e)
  | ok es ↦ do
    (found, sequence) ← load_entries io (current_prefix r) es ([], r.sequence)
    ok (with_segments found sequence r)
]
