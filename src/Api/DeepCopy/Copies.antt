-- ===== src/Api/DeepCopy/Copies.antt =====
-- Commands that allocate and leave what was allocated before: their sequence, and the copies of one cell.
use poddoctor.Prelude.{
  String, suc, ◌≤◌, Option, some, List, [], ◌∷◌, map, ◌≡◌, refl, ap, ◌∙◌, arith, nat_eq, Bool-cases,
  inl, inr, ℤ,
}
use poddoctor.Api.{Time, EvidenceEvent, ObjectMeta}
use poddoctor.Api.DeepCopy.Memory.{
  Address, Meta, ListMeta, Object, Cell, number, events, objects, Memory, Cmd, pure, ◌>>=◌, update,
  alloc, as_number, as_events, as_objects, with_memory, load_number, load_events, load_objects,
}
use poddoctor.Api.DeepCopy.{Library, or_nil, as_runtime}
use poddoctor.Api.DeepCopy.Values.{ListMetaValue, HasMeta, HasListMeta, IsBounded, Same, Keeps}

-- What a copy command does on a memory: it allocates, and its copy reads by `R` whatever happens to
-- other cells than those that it has allocated.
pub record Copies {X : Type 0} (R : Memory → X → Type 0) (m : Memory) (r : Option (X × Memory))
    : Type 0 where
  pub copy : X
  pub after : Memory
  pub runs : r ≡ some (copy, after)
  pub grows : m.next ≤ after.next
  pub keeps : Keeps m after
  pub bounded : IsBounded after
  pub reads : (m' : Memory) → Same m.next after.next after m' → R m' copy

Keeps-trans : (a b c : Memory) → a.next ≤ b.next → Keeps a b → Keeps b c → Keeps a c
Keeps-trans a b c g k l = λ p lo hi. l p lo (omega arith) ∙ k p lo hi

-- What the first of two commands has allocated is as it was after the second.
Same-first :
    (a b c m' : Memory)
    → a.next ≤ b.next
    → b.next ≤ c.next
    → Keeps b c
    → Same a.next c.next c m'
    → Same a.next b.next b m'
Same-first a b c m' g h k s = λ p lo hi. s p lo (omega arith) ∙ k p (omega arith) hi

Same-second :
    (a b c m' : Memory) → a.next ≤ b.next → Same a.next c.next c m' → Same b.next c.next c m'
Same-second a b c m' g s = λ p lo hi. s p (omega arith) hi

module _ (m : Memory) (b : IsBounded m) (c : Cell) where
  abbrev grown : Memory
  grown = record { next = suc m.next; cell = update m.cell m.next c }

  alloc-Copies : Copies (λ m' p. m'.cell p ≡ some c) m (alloc c m)
  unfolding alloc
  alloc-Copies = record {
    copy = m.next;
    after = grown;
    runs = refl;
    grows = omega arith;
    keeps = λ p lo hi. ground arith;
    bounded = λ p d e. elim (Bool-cases (nat_eq m.next p)) [
      | inl q ↦ ground arith
      | inr q ↦ let old = b p d (rw q at e) in omega arith
    ];
    reads = λ m' s. s m.next (omega arith) (omega arith) ∙ ground arith;
  }

-- A value that takes no command.
pub pure-Copies :
    {X : Type 0} (R : Memory → X → Type 0) (m : Memory) (x : X)
    → IsBounded m
    → ((m' : Memory) → R m' x)
    → Copies R m (pure x m)
pure-Copies R m x b r = record {
  copy = x;
  after = m;
  runs = refl;
  grows = omega arith;
  keeps = λ p lo hi. refl;
  bounded = b;
  reads = λ m' s. r m';
}

-- One command after another.
pub then-Copies :
    {X Y : Type 0} (R : Memory → X → Type 0) (Q : Memory → Y → Type 0) (m : Memory) (c : Cmd X)
    (f : X → Cmd Y) (first : Copies R m (c m))
    → Copies (λ m' y. R m' first.copy → Q m' y) first.after (f first.copy first.after)
    → Copies Q m ((c >>= f) m)
then-Copies R Q m c f first second = record {
  copy = second.copy;
  after = second.after;
  runs = rw (first.runs, ◌>>=◌) second.runs;
  grows = omega (arith, first.grows, second.grows);
  keeps = Keeps-trans m first.after second.after first.grows first.keeps second.keeps;
  bounded = second.bounded;
  reads = λ m' s. second.reads m' (Same-second m first.after second.after m' first.grows s) (
      first.reads m'
        (Same-first m first.after second.after m' first.grows second.grows second.keeps s));
}

-- A new cell behind a pointer.
pub pointer-Copies :
    (R : Memory → Option Address → Type 0) (m : Memory) (c : Cell)
    → IsBounded m
    → ((m' : Memory) (p : Address) → m'.cell p ≡ some c → R m' (some p))
    → Copies R m ((alloc c >>= λ p. pure (some p)) m)
pointer-Copies R m c b r =
    let first = alloc-Copies m b c in
    then-Copies _ R m (alloc c) (λ p. pure (some p)) first
      (pure-Copies _ first.after (some first.copy) first.bounded (λ m' e. r m' first.copy e))

-- A command that only reads.
pub read-Copies :
    {X Y : Type 0} (R : Memory → Y → Type 0) (m : Memory) (c : Cmd X) (f : X → Cmd Y) (x : X)
    → c m ≡ some (x, m)
    → Copies R m (f x m)
    → Copies R m ((c >>= f) m)
read-Copies R m c f x e h = rw (e, ◌>>=◌) h

pub load_number-kept :
    (m : Memory) (p : Address) (n : ℤ) → m.cell p ≡ some (number n) → load_number p m ≡ some (n, m)
unfolding load_number
load_number-kept m p n e = ap (λ x. with_memory (as_number x) m) e

pub load_events-kept :
    (m : Memory) (p : Address) (es : List EvidenceEvent)
    → m.cell p ≡ some (events es)
    → load_events p m ≡ some (es, m)
unfolding load_events
load_events-kept m p es e = ap (λ x. with_memory (as_events x) m) e

pub load_objects-kept :
    (m : Memory) (p : Address) (ds : List Object)
    → m.cell p ≡ some (objects ds)
    → load_objects p m ≡ some (ds, m)
unfolding load_objects
load_objects-kept m p ds e = ap (λ x. with_memory (as_objects x) m) e

pub map-same : {A : Type 0} (f : A → A) → ((a : A) → f a ≡ a) → (xs : List A) → map f xs ≡ xs
map-same f e [] = refl
map-same f e (x ∷ xs) = rw (e x, map-same f e xs) refl

pub or_nil-runs :
    {A : Type 0} (copy : A → Cmd A) (a : A) (m : Memory) (c : A) (m' : Memory)
    → copy a m ≡ some (c, m')
    → or_nil copy (some a) m ≡ some (some c, m')
unfolding or_nil
or_nil-runs copy a m c m' e = rw (e, ◌>>=◌) refl

pub as_runtime-runs :
    {A : Type 0} (copy : Cmd (Option A)) (m : Memory) (c : A) (m' : Memory)
    → copy m ≡ some (some c, m')
    → as_runtime copy m ≡ some (some c, m')
unfolding as_runtime
as_runtime-runs copy m c m' e = rw (e, ◌>>=◌) refl

-- What apimachinery's copies do: a time has the same value, and the copy of an ObjectMeta or a ListMeta
-- reads as its original, by pointers of its own.
pub record IsCopying (lib : Library) : Type 0 where
  pub time : (t : Time) → lib.copy_time t ≡ t
  pub meta :
      (d : Meta) (ls : List (String × String)) (v : ObjectMeta) (m : Memory)
      → IsBounded m
      → HasMeta m d ls v
      → Copies (λ m' c. HasMeta m' c ls v) m (lib.copy_meta d m)
  pub list_meta :
      (d : ListMeta) (v : ListMetaValue) (m : Memory)
      → IsBounded m
      → HasListMeta m d v
      → Copies (λ m' c. HasListMeta m' c v) m (lib.copy_list_meta d m)
