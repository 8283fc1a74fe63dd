-- ===== src/Api/DeepCopy/Memory.antt =====
-- The part of Go's memory that the deep copies read and write: the numbers and arrays that the fields of
-- the API types point to.
use poddoctor.Prelude.{ℕ, suc, String, Option, none, some, List, nat_eq, ℤ, if◌then◌else◌}
use poddoctor.Api.{RootCause, Confidence, Time, EvidenceEvent, PodDiagnosisSpec}

abbrev pub Address : Type 0
Address = ℕ

-- A status in memory: the exit code and the events stand behind pointers, none is nil.
pub record Status : Type 0 where
  pub phase : String
  pub root_cause : RootCause
  pub confidence : Confidence
  pub summary : String
  pub recommendation : String
  pub exit_code : Option Address
  pub termination_reason : String
  pub restart_count : ℤ
  pub last_diagnosed_restart_count : ℤ
  pub recent_events : Option Address
  pub log_excerpt : List ℕ
  pub rollout_context : String
  pub first_observed : Time
  pub last_observed : Time

-- apimachinery's TypeMeta, ObjectMeta and ListMeta in memory. The labels and the owner references of an
-- object stand behind pointers, and the count of remaining items of a list. The fields that neither the
-- program nor the copies name are left out.
pub record TypeMeta : Type 0 where
  pub kind : String
  pub api_version : String

pub record Meta : Type 0 where
  pub name : String
  pub namespace : String
  pub resource_version : ℕ
  pub labels : Option Address
  pub owners : Option Address

pub record ListMeta : Type 0 where
  pub resource_version : String
  pub continue : String
  pub remaining : Option Address

pub record Object : Type 0 where
  pub type_meta : TypeMeta
  pub meta : Meta
  pub spec : PodDiagnosisSpec
  pub status : Status

pub data Cell : Type 0 where
  number : ℤ → Cell
  events : List EvidenceEvent → Cell
  objects : List Object → Cell
  labels : List (String × String) → Cell
  -- owner references, by the UID of the controlling one
  owners : Option String → Cell

-- `next` is the address that is allocated next.
pub record Memory : Type 0 where
  pub next : Address
  pub cell : Address → Option Cell

-- A command on the memory; none is a fault.
abbrev pub Cmd : Type 0 → Type 0
Cmd A = Memory → Option (A × Memory)

abbrev pub pure : {A : Type 0} → A → Cmd A
pure a m = some (a, m)

infixl 5 ◌>>=◌
abbrev pub ◌>>=◌ : {A B : Type 0} → Cmd A → (A → Cmd B) → Cmd B
◌>>=◌ c f m = elim (c m) [ none ↦ none | some (a, m') ↦ f a m' ]

abbrev pub update : (Address → Option Cell) → Address → Cell → Address → Option Cell
update f p c q = if nat_eq p q then some c else f q

-- A new cell.
unfoldable pub alloc : Cell → Cmd Address
alloc c m = some (m.next, record { next = suc m.next; cell = update m.cell m.next c })

abbrev pub as_number : Option Cell → Option ℤ
as_number (some (number n)) = some n
as_number _ = none

abbrev pub as_events : Option Cell → Option (List EvidenceEvent)
as_events (some (events es)) = some es
as_events _ = none

abbrev pub as_objects : Option Cell → Option (List Object)
as_objects (some (objects xs)) = some xs
as_objects _ = none

abbrev pub with_memory : {A : Type 0} → Option A → Cmd A
with_memory none m = none
with_memory (some a) m = some (a, m)

unfoldable pub load_number : Address → Cmd ℤ
load_number p m = with_memory (as_number (m.cell p)) m

unfoldable pub load_events : Address → Cmd (List EvidenceEvent)
load_events p m = with_memory (as_events (m.cell p)) m

unfoldable pub load_objects : Address → Cmd (List Object)
load_objects p m = with_memory (as_objects (m.cell p)) m
