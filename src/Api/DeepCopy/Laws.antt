-- ===== src/Api/DeepCopy/Laws.antt =====
-- A deep copy has the value of its original, and nothing behind a pointer in common with it.
use poddoctor.Prelude.{Option, none, some, List, [], ◌∷◌, ◌≡◌, ap, ℤ}
use poddoctor.Api.{EvidenceEvent, PodDiagnosisStatus}
use poddoctor.Api.DeepCopy.Memory.{
  Address, Status, Object, number, events, objects, Memory, load_number, load_events, load_objects,
}
use poddoctor.Api.DeepCopy.{
  ObjectList, Library, copy_event, copy_exit_code, copy_events, copy_status, copy_object, copy_each,
  copy_items, copy_list, deep_copy_list, copy_runtime_list,
}
use poddoctor.Api.DeepCopy.Values.{
  ObjectValue, ListValue, HasNumber, HasEvents, HasStatus, HasObject, HasEach, HasItems, HasList,
  IsBounded, Same, Keeps, HasEvents-kept, HasStatus-kept, HasEach-kept, HasItems-kept, HasList-kept,
}
use poddoctor.Api.DeepCopy.Copies.{
  IsCopying, Copies, pure-Copies, then-Copies, pointer-Copies, read-Copies, load_number-kept,
  load_events-kept, load_objects-kept, map-same, or_nil-runs, as_runtime-runs,
}

module _ (lib : Library) (laws : IsCopying lib) where
  copy_event-same : (e : EvidenceEvent) → copy_event lib e ≡ e
  unfolding copy_event
  copy_event-same e = ap (λ t. record e { last_timestamp = t }) (laws.time e.last_timestamp)

  code-Copies :
      (p : Option Address) (v : Option ℤ) (m : Memory)
      → IsBounded m
      → HasNumber m p v
      → Copies (λ m' q. HasNumber m' q v) m (copy_exit_code lib p m)
  unfolding copy_exit_code
  code-Copies none v m b h = pure-Copies (λ m' q. HasNumber m' q v) m none b (λ m'. h)
  code-Copies (some p) v m b (n, e, q) =
      read-Copies (λ m' q. HasNumber m' q v) m (load_number p) _ n (load_number-kept m p n e)
        (pointer-Copies (λ m' q. HasNumber m' q v) m (number n) b (λ m' p e. (n, e, q)))

  events-Copies :
      (p : Option Address) (es : List EvidenceEvent) (m : Memory)
      → IsBounded m
      → HasEvents m p es
      → Copies (λ m' q. HasEvents m' q es) m (copy_events lib p m)
  unfolding copy_events
  events-Copies none es m b h = pure-Copies (λ m' q. HasEvents m' q es) m none b (λ m'. h)
  events-Copies (some p) es m b e =
      read-Copies (λ m' q. HasEvents m' q es) m (load_events p) _ es (load_events-kept m p es e)
        (rw (map-same (copy_event lib) copy_event-same es)
          (pointer-Copies (λ m' q. HasEvents m' q es) m (events es) b (λ m' p e. e)))

  status-Copies :
      (s : Status) (v : PodDiagnosisStatus) (m : Memory)
      → IsBounded m
      → HasStatus m s v
      → Copies (λ m' t. HasStatus m' t v) m (copy_status lib s m)
  unfolding copy_status
  status-Copies s v m b h =
      let code = code-Copies s.exit_code v.exit_code m b h.code in
      let es =
        events-Copies s.recent_events v.recent_events code.after code.bounded
          (HasEvents-kept m code.after b code.keeps s.recent_events v.recent_events h.evidence) in
      then-Copies _ (λ m' t. HasStatus m' t v) m (copy_exit_code lib s.exit_code) _ code
        (then-Copies _ _ code.after (copy_events lib s.recent_events) _ es (
          pure-Copies _ es.after _ es.bounded (λ m' evidence held. record {
            code = held;
            evidence = evidence;
            rest = rw (laws.time s.first_observed, laws.time s.last_observed) h.rest;
          })))

  object-Copies :
      (d : Object) (v : ObjectValue) (m : Memory)
      → IsBounded m
      → HasObject m d v
      → Copies (λ m' c. HasObject m' c v) m (copy_object lib d m)
  unfolding copy_object
  object-Copies d v m b h =
      let meta = laws.meta d.meta v.labels v.diagnosis.meta m b h.meta in
      let status =
        status-Copies d.status v.diagnosis.status meta.after meta.bounded
          (HasStatus-kept m meta.after b meta.keeps d.status v.diagnosis.status h.status) in
      then-Copies _ (λ m' c. HasObject m' c v) m (lib.copy_meta d.meta) _ meta
        (then-Copies _ _ meta.after (copy_status lib d.status) _ status (
          pure-Copies _ status.after _ status.bounded (λ m' held named. record {
            type_meta = h.type_meta;
            meta = named;
            spec = h.spec;
            status = held;
          })))

  each-Copies :
      (ds : List Object) (vs : List ObjectValue) (m : Memory)
      → IsBounded m
      → HasEach m ds vs
      → Copies (λ m' cs. HasEach m' cs vs) m (copy_each lib ds m)
  unfolding copy_each
  each-Copies [] [] m b h = pure-Copies (λ m' cs. HasEach m' cs []) m [] b (λ m'. tt)
  each-Copies (d ∷ ds) (v ∷ vs) m b (h, r) =
      let first = object-Copies d v m b h in
      let later =
        each-Copies ds vs first.after first.bounded
          (HasEach-kept m first.after b first.keeps ds vs r) in
      then-Copies _ (λ m' cs. HasEach m' cs (v ∷ vs)) m (copy_object lib d) _ first
        (then-Copies _ _ first.after (copy_each lib ds) _ later
          (pure-Copies _ later.after _ later.bounded (λ m' rest one. (one, rest))))
  each-Copies [] (v ∷ vs) m b h = absurd h
  each-Copies (d ∷ ds) [] m b h = absurd h

  items-Copies :
      (p : Option Address) (vs : List ObjectValue) (m : Memory)
      → IsBounded m
      → HasItems m p vs
      → Copies (λ m' q. HasItems m' q vs) m (copy_items lib p m)
  unfolding copy_items
  items-Copies none vs m b h = pure-Copies (λ m' q. HasItems m' q vs) m none b (λ m'. h)
  items-Copies (some p) vs m b (ds, e, h) =
      let copies = each-Copies ds vs m b h in
      read-Copies (λ m' q. HasItems m' q vs) m (load_objects p) _ ds (load_objects-kept m p ds e)
        (then-Copies _ (λ m' q. HasItems m' q vs) m (copy_each lib ds) _ copies
          (pointer-Copies _ copies.after (objects copies.copy) copies.bounded
            (λ m' q cell each. (copies.copy, cell, each))))

  list-Copies :
      (l : ObjectList) (v : ListValue) (m : Memory)
      → IsBounded m
      → HasList m l v
      → Copies (λ m' c. HasList m' c v) m (copy_list lib l m)
  unfolding copy_list
  list-Copies l v m b h =
      let meta = laws.list_meta l.meta v.meta m b h.meta in
      let items =
        items-Copies l.items v.items meta.after meta.bounded
          (HasItems-kept m meta.after b meta.keeps l.items v.items h.items) in
      then-Copies _ (λ m' c. HasList m' c v) m (lib.copy_list_meta l.meta) _ meta
        (then-Copies _ _ meta.after (copy_items lib l.items) _ items (
          pure-Copies _ items.after _ items.bounded
            (λ m' held named. record { type_meta = h.type_meta; meta = named; items = held })))

  -- Where the library's copies of times have the value of their original, and those of ObjectMeta
  -- and ListMeta read as their original by pointers of their own: DeepCopyObject of a list that
  -- reads as some value, with its type, its metadata and its diagnoses with theirs, in a memory
  -- whose cells were all allocated, does not fault and gives a list that reads as the same value
  -- in every memory that agrees on the cells which the copying has allocated, while the original
  -- reads as before in every memory that agrees on those that were there; the copying itself
  -- leaves these as they are. So a write to what either points to does not show in the other.
  pub copy_runtime_list_lem :
      (m : Memory) (l : ObjectList) (v : ListValue)
      → IsBounded m
      → HasList m l v
      → (c : ObjectList) × (m' : Memory) × (copy_runtime_list lib (some l) m ≡ some (some c, m'))
        × ((w : Memory) → Same m.next m'.next m' w → HasList w c v)
        × ((w : Memory) → Keeps m w → HasList w l v)
        × Keeps m m'
  unfolding deep_copy_list copy_runtime_list
  copy_runtime_list_lem m l v b h =
      let list = list-Copies l v m b h in
      (
        list.copy,
        list.after,
        as_runtime-runs (deep_copy_list lib (some l)) m list.copy list.after
            (or_nil-runs (copy_list lib) l m list.copy list.after list.runs),
        list.reads,
        λ w k. HasList-kept m w b k l v h,
        list.keeps,
      )
