-- ===== src/LogCapture/Streams.antt =====
-- internal/application/logcapture/service.go: which streams run after reconcile.
use cap_mesh.Prelude.{
  ◌≡◌, ◌≤◌, refl, Bool, true, false, ◌||◌, List, [], ◌∷◌, none, is_some, if◌then◌else◌, Result, ok,
  err, ◌>>=◌, OkThen, OkThen-bind, ltb, length, All, arith, if_elim,
}
use cap_mesh.Text.{Text, text_eq, text_eq_iff}
use cap_mesh.Map
use cap_mesh.Map.{Map, lookup-insert}
use cap_mesh.LogCapture.{
  LogTarget, Pod, Followed, LogError, stream_key, selected_containers, followed, want_containers,
  want_pods, pod_limit, check_pods, Resolver, want_targets, keep_desired, start_missing, reconcile,
}

-- Whether a stream of the key is wanted: of a container that is selected, of a pod, of a target.
abbrev of_containers : LogTarget → Pod → List Text → Text → Bool
of_containers t p [] k = false
of_containers t p (c ∷ cs) k = text_eq (stream_key (followed t p c)) k || of_containers t p cs k

abbrev of_pods : LogTarget → List Pod → Text → Bool
of_pods t [] k = false
of_pods t (p ∷ ps) k =
    of_containers t p (selected_containers p.containers t.containers) k || of_pods t ps k

abbrev of_resolved : LogTarget → Result Text (List Pod) → Text → Bool
of_resolved t (ok pods) k = of_pods t pods k
of_resolved t (err e) k = false

abbrev pub is_wanted : Resolver → List LogTarget → Text → Bool
is_wanted resolve [] k = false
is_wanted resolve (t ∷ ts) k = of_resolved t (resolve t) k || is_wanted resolve ts k

abbrev has : Text → Map Followed → Bool
has k m = is_some (Map.lookup k m)

has-want_containers :
    (t : LogTarget) (p : Pod) (cs : List Text) (d : Map Followed) (k : Text)
    → has k (want_containers t p cs d) ≡ (of_containers t p cs k || has k d)
unfolding want_containers
has-want_containers t p [] d k = refl
has-want_containers t p (c ∷ cs) d k = ground (
  arith,
  has-want_containers t p cs (Map.insert (stream_key (followed t p c)) (followed t p c) d) k,
  lookup-insert (stream_key (followed t p c)) k (followed t p c) d,
)

has-want_pods :
    (t : LogTarget) (ps : List Pod) (d : Map Followed) (k : Text)
    → has k (want_pods t ps d) ≡ (of_pods t ps k || has k d)
unfolding want_pods
has-want_pods t [] d k = refl
has-want_pods t (p ∷ ps) d k =
    let cs = selected_containers p.containers t.containers in
    ground (arith, has-want_pods t ps (want_containers t p cs d) k, has-want_containers t p cs d k)

-- The pods of a target are resolved, and not more than its limit.
abbrev pub IsResolved : Resolver → LogTarget → Type 0
IsResolved resolve t = (pods : List Pod) × (resolve t ≡ ok pods) × (length pods ≤ pod_limit t)

abbrev Wants : Resolver → List LogTarget → Map Followed → Map Followed → Type 0
Wants resolve ts d e =
    All (IsResolved resolve) ts × ((k : Text) → has k e ≡ (is_wanted resolve ts k || has k d))

Wants-more :
    (resolve : Resolver) (t : LogTarget) (ts : List LogTarget) (d : Map Followed) (pods : List Pod)
    (r : Result LogError (Map Followed))
    → resolve t ≡ ok pods
    → length pods ≤ pod_limit t
    → OkThen (Wants resolve ts (want_pods t pods d)) r
    → OkThen (Wants resolve (t ∷ ts) d) r
Wants-more resolve t ts d pods (err e) h low w = tt
Wants-more resolve t ts d pods (ok u) h low (rest, w) =
    (((pods, h, low), rest), λ k. rw h (ground (arith, w k, has-want_pods t pods d k)))

want_targets-Wants :
    (resolve : Resolver) (ts : List LogTarget) (d : Map Followed)
    → OkThen (Wants resolve ts d) (want_targets resolve ts d)
unfolding want_targets
want_targets-Wants resolve [] d = (tt, λ k. refl)
want_targets-Wants resolve (t ∷ ts) d =
    resolved (resolve t) refl (λ pods. want_targets-Wants resolve ts (want_pods t pods d))
  where
    resolved :
        (r : Result Text (List Pod))
        → resolve t ≡ r
        → ((pods : List Pod)
            → OkThen
                (Wants resolve ts (want_pods t pods d))
                (want_targets resolve ts (want_pods t pods d)))
        → OkThen
            (Wants resolve (t ∷ ts) d)
            (check_pods t r >>= (λ pods. want_targets resolve ts (want_pods t pods d)))
    resolved (err e) h later = unfold check_pods in tt
    resolved (ok pods) h later =
        unfold check_pods in
        if_elim
          (λ (r : Result LogError (List Pod)).
            OkThen (Wants resolve (t ∷ ts) d)
              (r >>= (λ pods. want_targets resolve ts (want_pods t pods d))))
          (ltb (pod_limit t) (length pods)) (λ _. tt)
          (λ low.
            Wants-more resolve t ts d pods (want_targets resolve ts (want_pods t pods d)) h
              (ground (arith, low)) (later pods))

lookup-keep_desired :
    (d s : Map Followed) (k : Text)
    → Map.lookup k (keep_desired d s) ≡ (if has k d then Map.lookup k s else none)
unfolding keep_desired Map.lookup
lookup-keep_desired d [] k = ground arith
lookup-keep_desired d ((j, f) ∷ s) k = ground (arith, text_eq_iff j k, lookup-keep_desired d s k)

lookup-start_missing :
    (d s : Map Followed) (k : Text)
    → Map.lookup k (start_missing d s) ≡ (if has k s then Map.lookup k s else Map.lookup k d)
unfolding start_missing Map.lookup
lookup-start_missing [] s k = ground arith
lookup-start_missing ((j, f) ∷ d) s k = ground (
  arith,
  text_eq_iff j k,
  lookup-insert j k f s,
  lookup-start_missing d s k,
  lookup-start_missing d (Map.insert j f s) k,
)

-- The streams after a reconcile, at a key.
abbrev pub Follows : Resolver → List LogTarget → Map Followed → Map Followed → Type 0
Follows resolve ts s u =
    All (IsResolved resolve) ts
    × ((k : Text)
        → (is_some (Map.lookup k u) ≡ is_wanted resolve ts k)
          × (is_wanted resolve ts k ≡ true
              → is_some (Map.lookup k s) ≡ true
              → Map.lookup k u ≡ Map.lookup k s))

-- A reconcile that has no error has resolved the pods of every target, no more of them than its limit.
-- Afterwards a stream of a key runs exactly when a selected container of one of those pods has it, and
-- one that ran before and is still wanted goes on as it was.
pub reconcile-Follows :
    (resolve : Resolver) (ts : List LogTarget) (s : Map Followed)
    → OkThen (Follows resolve ts s) (reconcile resolve ts s)
unfolding reconcile Map.lookup
reconcile-Follows resolve ts s =
    OkThen-bind (Wants resolve ts []) (Follows resolve ts s) (want_targets resolve ts []) _
      (want_targets-Wants resolve ts [])
      (λ d (resolved, wants). (
        resolved,
        λ k. (
          ground (
            arith,
            lookup-start_missing d (keep_desired d s) k,
            lookup-keep_desired d s k,
            wants k,
          ),
          λ w h. ground (
            arith,
            lookup-start_missing d (keep_desired d s) k,
            lookup-keep_desired d s k,
            wants k,
            w,
            h,
          ),
        ),
      ))
