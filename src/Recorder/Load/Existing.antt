-- ===== src/Recorder/Load/Existing.antt =====
-- internal/adapter/recording/manager.go: the recorder after loadExistingSegments.
use cap_mesh.Prelude.{
  ℕ, suc, ◌≡◌, ◌≤◌, refl, not, ◌&&◌, ◌||◌, List, [], ◌∷◌, ◌++◌, Option, none, some, inr, Result, ok,
  err, OkThen, OkThen-bind, All, All-append, arith, if_elim,
}
use cap_mesh.Text.{Text, text}
use cap_mesh.Domain.{Time}
use cap_mesh.Recorder.{Segment, Recorder, Io}
use cap_mesh.Recorder.Segments.{sizes}
use cap_mesh.Recorder.Counts.{IsAccounted, packets, pending}
use cap_mesh.Recorder.Load.{
  Entry, has_suffix, is_recording, current_prefix, sequence_of, raise, loaded, Found, remove_stale,
  load_segment, load_entry, load_entries, is_older, insert_segment, sort_segments, number_segments,
  total_size, with_segments, load_existing_segments,
}

abbrev IsEmpty : Segment → Type 0
IsEmpty s = s.packet_count ≡ 0

-- The segments that are found count no packet, and the number only rises.
abbrev Finds : ℕ → Found → Type 0
Finds n (segments, sequence) = All IsEmpty segments × (n ≤ sequence)

raise_le : (o : Option ℕ) (n : ℕ) → n ≤ raise o n
unfolding raise
raise_le none n = omega arith
raise_le (some m) n = ground arith

remove_stale-Finds :
    (io : Io) (name : Text) (n : ℕ) (f : Found)
    → Finds n f
    → OkThen (Finds n) (remove_stale io name f)
unfolding remove_stale
remove_stale-Finds io name n f h = removed (io.remove name)
  where
    removed :
        (o : Option Text)
        → OkThen (Finds n) (elim o as (λ _. Result Text Found) [
          | some e ↦ err (text "remove stale recording segment " ++ (name ++ (text ": " ++ e)))
          | none ↦ ok f
        ])
    removed none = h
    removed (some e) = tt

load_segment-Finds :
    (prefix name : Text) (i : Result Text (ℕ × Time)) (n : ℕ) (f : Found)
    → Finds n f
    → OkThen (Finds n) (load_segment prefix name i f)
unfolding load_segment
load_segment-Finds prefix name (err e) n f h = tt
load_segment-Finds prefix name (ok (size, modified)) n (segments, sequence) (h, low) = (
  All-append IsEmpty segments (loaded name size modified ∷ []) h (refl, tt),
  omega (arith, low, raise_le (sequence_of prefix name) sequence),
)

load_entry-Finds :
    (io : Io) (prefix : Text) (e : Entry) (n : ℕ) (f : Found)
    → Finds n f
    → OkThen (Finds n) (load_entry io prefix e f)
unfolding load_entry
load_entry-Finds io prefix e n f h =
    if_elim (OkThen (Finds n))
      (not e.is_dir && (is_recording e.name && has_suffix (text ".pcapng.part") e.name))
      (λ _. remove_stale-Finds io e.name n f h)
      (λ _.
        if_elim (OkThen (Finds n))
          (e.is_dir || (not (is_recording e.name) || not (has_suffix (text ".pcapng") e.name)))
          (λ _. h) (λ _. load_segment-Finds prefix e.name e.info n f h))

load_entries-Finds :
    (io : Io) (prefix : Text) (es : List Entry) (n : ℕ) (f : Found)
    → Finds n f
    → OkThen (Finds n) (load_entries io prefix es f)
unfolding load_entries
load_entries-Finds io prefix [] n f h = h
load_entries-Finds io prefix (e ∷ es) n f h =
    OkThen-bind (Finds n) (Finds n) (load_entry io prefix e f) (load_entries io prefix es)
      (load_entry-Finds io prefix e n f h) (load_entries-Finds io prefix es n)

insert_segment-IsEmpty :
    (s : Segment) (ts : List Segment)
    → IsEmpty s
    → All IsEmpty ts
    → All IsEmpty (insert_segment s ts)
unfolding insert_segment
insert_segment-IsEmpty s [] h hs = (h, tt)
insert_segment-IsEmpty s (t ∷ ts) h (ht, hs) =
    if_elim (All IsEmpty) (is_older t s) (λ _. (ht, insert_segment-IsEmpty s ts h hs))
      (λ _. (h, (ht, hs)))

sort_segments-IsEmpty : (ss : List Segment) → All IsEmpty ss → All IsEmpty (sort_segments ss)
unfolding sort_segments
sort_segments-IsEmpty [] h = tt
sort_segments-IsEmpty (s ∷ ss) (h, hs) =
    insert_segment-IsEmpty s (sort_segments ss) h (sort_segments-IsEmpty ss hs)

number_segments-packets :
    (n : ℕ) (ss : List Segment) → All IsEmpty ss → packets (number_segments n ss) ≡ 0
unfolding number_segments
number_segments-packets n [] h = refl
number_segments-packets n (s ∷ ss) (h, hs) = omega (arith, h, number_segments-packets (suc n) ss hs)

total_size-sizes : (ss : List Segment) → total_size ss ≡ sizes ss
unfolding total_size
total_size-sizes [] = refl
total_size-sizes (s ∷ ss) = omega (arith, total_size-sizes ss)

-- A recorder as Start makes it: nothing is recorded, and no file is open.
abbrev pub IsFresh : Recorder → Type 0
IsFresh r = (r.metadata.total_file_size ≡ 0) × (r.metadata.packet_count ≡ 0) × (r.file ≡ none)

with_segments-IsAccounted :
    (segments : List Segment) (sequence : ℕ) (r : Recorder)
    → IsFresh r
    → All IsEmpty segments
    → IsAccounted (with_segments segments sequence r)
unfolding with_segments
with_segments-IsAccounted segments sequence r (size, count, file) h =
    let none_counted =
      number_segments-packets 0 (sort_segments segments) (sort_segments-IsEmpty segments h) in
    let summed = total_size-sizes (number_segments 0 (sort_segments segments)) in
    let idle : pending r.file r.segment_pkts ≡ 0 = rw file refl in
    (
      (omega (arith, size, summed), omega arith, omega arith),
      inr (omega (arith, count, none_counted, idle)),
    )

-- What loadExistingSegments keeps of the recorder.
abbrev pub Loads : Recorder → Recorder → Type 0
Loads r s =
    IsAccounted s
    × (r.sequence ≤ s.sequence)
    × (s.rolling ≡ r.rolling)
    × (s.segment_size ≡ r.segment_size)
    × (s.max_session_size ≡ r.max_session_size)
    × (s.file ≡ r.file)

pub load_existing_segments-Loads :
    (io : Io) (entries : Result Text (List Entry)) (r : Recorder)
    → IsFresh r
    → OkThen (Loads r) (load_existing_segments io entries r)
unfolding load_existing_segments with_segments
load_existing_segments-Loads io (err e) r h = tt
load_existing_segments-Loads io (ok es) r h =
    OkThen-bind (Finds r.sequence) (Loads r)
      (load_entries io (current_prefix r) es ([], r.sequence)) _
      (load_entries-Finds io (current_prefix r) es r.sequence ([], r.sequence) (tt, omega arith))
      (λ (segments, sequence) (empty, rises).
        (with_segments-IsAccounted segments sequence r h empty, rises, refl, refl, refl, refl))
