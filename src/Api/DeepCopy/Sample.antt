-- ===== src/Api/DeepCopy/Sample.antt =====
-- A library that copies as apimachinery does: a new cell for each pointer of the metadata.
use poddoctor.Prelude.{String, Option, none, some, List, ◌≡◌, refl, ap, ℤ}
use poddoctor.Api.{ObjectMeta}
use poddoctor.Api.DeepCopy.Memory.{
  Address, Meta, ListMeta, Cell, number, labels, owners, Memory, Cmd, pure, ◌>>=◌, alloc,
  with_memory,
}
use poddoctor.Api.DeepCopy.{Library}
use poddoctor.Api.DeepCopy.Values.{
  ListMetaValue, HasNumber, HasLabels, HasOwners, HasMeta, HasListMeta, IsBounded, HasOwners-kept,
}
use poddoctor.Api.DeepCopy.Copies.{
  IsCopying, Copies, pure-Copies, then-Copies, pointer-Copies, read-Copies,
}

abbrev load_cell : Address → Cmd Cell
load_cell p m = with_memory (m.cell p) m

abbrev copy_pointer : Option Address → Cmd (Option Address)
copy_pointer none = pure none
copy_pointer (some p) = do c ← load_cell p; q ← alloc c; pure (some q)

abbrev pub lib : Library
lib = record {
  copy_time = λ t. t;
  copy_meta = λ d. do
    ls ← copy_pointer d.labels
    os ← copy_pointer d.owners
    pure (record d { labels = ls; owners = os });
  copy_list_meta = λ d. do
    n ← copy_pointer d.remaining
    pure (record d { remaining = n });
}

load_cell-kept :
    (m : Memory) (p : Address) (c : Cell) → m.cell p ≡ some c → load_cell p m ≡ some (c, m)
load_cell-kept m p c e = ap (λ x. with_memory x m) e

number-Copies :
    (p : Option Address) (v : Option ℤ) (m : Memory)
    → IsBounded m
    → HasNumber m p v
    → Copies (λ m' q. HasNumber m' q v) m (copy_pointer p m)
number-Copies none v m b h = pure-Copies (λ m' q. HasNumber m' q v) m none b (λ m'. h)
number-Copies (some p) v m b (n, e, q) =
    read-Copies (λ m' q. HasNumber m' q v) m (load_cell p) _ (number n)
      (load_cell-kept m p (number n) e)
      (pointer-Copies (λ m' q. HasNumber m' q v) m (number n) b (λ m' p e. (n, e, q)))

labels-Copies :
    (p : Option Address) (ls : List (String × String)) (m : Memory)
    → IsBounded m
    → HasLabels m p ls
    → Copies (λ m' q. HasLabels m' q ls) m (copy_pointer p m)
labels-Copies none ls m b h = pure-Copies (λ m' q. HasLabels m' q ls) m none b (λ m'. h)
labels-Copies (some p) ls m b e =
    read-Copies (λ m' q. HasLabels m' q ls) m (load_cell p) _ (labels ls)
      (load_cell-kept m p (labels ls) e)
      (pointer-Copies (λ m' q. HasLabels m' q ls) m (labels ls) b (λ m' p e. e))

owners-Copies :
    (p : Option Address) (v : Option String) (m : Memory)
    → IsBounded m
    → HasOwners m p v
    → Copies (λ m' q. HasOwners m' q v) m (copy_pointer p m)
owners-Copies none v m b h = pure-Copies (λ m' q. HasOwners m' q v) m none b (λ m'. h)
owners-Copies (some p) v m b e =
    read-Copies (λ m' q. HasOwners m' q v) m (load_cell p) _ (owners v)
      (load_cell-kept m p (owners v) e)
      (pointer-Copies (λ m' q. HasOwners m' q v) m (owners v) b (λ m' p e. e))

meta-Copies :
    (d : Meta) (ls : List (String × String)) (v : ObjectMeta) (m : Memory)
    → IsBounded m
    → HasMeta m d ls v
    → Copies (λ m' c. HasMeta m' c ls v) m (lib.copy_meta d m)
meta-Copies d ls v m b h =
    let texts = labels-Copies d.labels ls m b h.labels in
    let refs =
      owners-Copies d.owners v.controller texts.after texts.bounded
        (HasOwners-kept m texts.after b texts.keeps d.owners v.controller h.owners) in
    then-Copies _ (λ m' c. HasMeta m' c ls v) m (copy_pointer d.labels) _ texts
      (then-Copies _ _ texts.after (copy_pointer d.owners) _ refs (
        pure-Copies _ refs.after _ refs.bounded (λ m' held named. record {
          name = h.name;
          namespace = h.namespace;
          version = h.version;
          labels = named;
          owners = held;
        })))

list_meta-Copies :
    (d : ListMeta) (v : ListMetaValue) (m : Memory)
    → IsBounded m
    → HasListMeta m d v
    → Copies (λ m' c. HasListMeta m' c v) m (lib.copy_list_meta d m)
list_meta-Copies d v m b h =
    let n = number-Copies d.remaining v.remaining m b h.remaining in
    then-Copies _ (λ m' c. HasListMeta m' c v) m (copy_pointer d.remaining) _ n
      (pure-Copies _ n.after _ n.bounded
        (λ m' held. record { version = h.version; continue = h.continue; remaining = held }))

pub lib-IsCopying : IsCopying lib
lib-IsCopying = record { time = λ t. refl; meta = meta-Copies; list_meta = list_meta-Copies }
