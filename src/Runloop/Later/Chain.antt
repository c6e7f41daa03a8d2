-- ===== src/Runloop/Later/Chain.antt =====
-- The queue in memory: a chain of entries, each with a job of its own, from a first entry to the
-- last.
use righack.Base.{refl, ◌≡◌, ◌≢◌, ◌⊎◌, Option, none, some, List, [], ◌∷◌, arith}
use righack.Machine.{World}
use righack.Machine.Access.{IsHeap}
use righack.Machine.Memory.{write}
use righack.Machine.Objects.{Ptr, null, Object, RunOnce, struct_run_once, struct_queue_entry}
use righack.Runloop.Later.{entry}
use righack.Machine.Extends.{Extends, is_queue, KeepsIf}

-- An entry's address, its job's address, and the job.
pub record Slot : Type 0 where
  pub at : Ptr
  pub run : Ptr
  pub job : RunOnce

abbrev pub Slots : Type 0
Slots = List Slot

abbrev pub jobs : Slots → List RunOnce
jobs [] = []
jobs (s ∷ ss) = s.job ∷ jobs ss

abbrev pub first : Slots → Ptr
first [] = null
first (s ∷ ss) = s.at

abbrev pub IsLast : Ptr → Slots → Type 0
IsLast p [] = ⊥
IsLast p (s ∷ []) = p ≡ s.at
IsLast p (s ∷ t ∷ ss) = IsLast p (t ∷ ss)

abbrev pub Holds : (Ptr → Option Object) → Slot → Ptr → Type 0
Holds h s next =
    (h s.at ≡ some (struct_queue_entry (entry s.run next)))
    × (h s.run ≡ some (struct_run_once s.job))

-- Each entry points to its job and to the entry behind it; the last one to NULL.
abbrev pub Chain : (Ptr → Option Object) → Slots → Type 0
Chain h [] = Unit
Chain h (s ∷ ss) = Holds h s (first ss) × Chain h ss

abbrev pub Avoids : Ptr → Slots → Type 0
Avoids p [] = Unit
Avoids p (s ∷ ss) = (p ≢ s.at) × (p ≢ s.run) × Avoids p ss

-- No block is in the chain twice.
abbrev pub Distinct : Slots → Type 0
Distinct [] = Unit
Distinct (s ∷ ss) = Avoids s.at ss × Avoids s.run ss × Distinct ss

-- The queue as it waits: between two passes, and for a callback within one, where `ss` begins with
-- the entry whose job is running and `run_once_queue` may point to an entry that is freed already.
pub record Waiting {X : Type 0} (w : World X) (ss : Slots) : Type 0 where
  pub formed : IsHeap w.cell w.next
  pub chain : Chain w.cell ss
  pub distinct : Distinct ss
  pub tail :
      ((ss ≡ []) × (w.run_once_queue ≡ null))
      ⊎ ((w.run_once_queue ≢ null) × IsLast w.run_once_last ss)

-- A slot keeps through a write elsewhere.
pub Holds-write :
    (h : Ptr → Option Object) (p : Ptr) (c : Option Object) (s : Slot) (next : Ptr)
    → Holds h s next
    → s.at ≢ p
    → s.run ≢ p
    → Holds (write h p c) s next
Holds-write h p c s next hs a b = ground arith

-- A chain keeps through a write elsewhere.
pub Chain-write :
    (h : Ptr → Option Object) (p : Ptr) (c : Option Object) (ss : Slots)
    → Chain h ss
    → Avoids p ss
    → Chain (write h p c) ss
Chain-write h p c [] ch av = tt
Chain-write h p c (s ∷ ss) ch av = ground (arith, Chain-write h p c ss ch.1 av.2)

-- An address with no block is in no chain.
pub gone-Avoids :
    (h : Ptr → Option Object) (p : Ptr) (ss : Slots) → Chain h ss → h p ≡ none → Avoids p ss
gone-Avoids h p [] ch gone = tt
gone-Avoids h p (s ∷ ss) ch gone = ground (arith, gone-Avoids h p ss ch.1 gone)

-- A chain stays if entries and jobs do.
pub Chain-KeepsIf :
    (h h' : Ptr → Option Object) (ss : Slots) → Chain h ss → KeepsIf is_queue h h' → Chain h' ss
Chain-KeepsIf h h' [] ch kept = tt
Chain-KeepsIf h h' (s ∷ ss) ch kept =
    ((kept s.at _ ch.0.0 refl, kept s.run _ ch.0.1 refl), Chain-KeepsIf h h' ss ch.1 kept)

-- The queue waits on in a state with the same variables in which entries and jobs stay.
pub Waiting-Extends :
    {X : Type 0} {w w' : World X} {ss : Slots}
    → Waiting w ss
    → Extends is_queue w w'
    → w'.run_once_queue ≡ w.run_once_queue
    → w'.run_once_last ≡ w.run_once_last
    → Waiting w' ss
Waiting-Extends {ss} wt ext queue last = record {
  formed = ext.formed;
  chain = Chain-KeepsIf _ _ ss wt.chain ext.kept;
  distinct = wt.distinct;
  tail = rw (queue, last) wt.tail;
}
