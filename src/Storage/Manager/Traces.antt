-- ===== src/Storage/Manager/Traces.antt =====
-- Interleavings of the actions of evget/src/storage/database_manager.cpp, and what they hold.
use evget.Prelude.{
  ◌≡◌, refl, Option, none, some, List, [], ◌∷◌, ◌++◌, append_assoc, append-nil, ap, ◌∙◌, sym,
}
use evget.Event.Entry.{Entry}
use evget.Event.Data.{Data, merge_with}
use evget.Storage.Manager.{
  Manager, Task, Running, Action, push_action, flush_action, timer_action, add_action, start_action,
  continue_action, step, merge_all,
}

abbrev pub entries_of : List Data → List Entry
entries_of [] = []
entries_of (d ∷ ds) = d.entries ++ entries_of ds

abbrev pub reported : Option Data → List Entry
reported none = []
reported (some d) = d.entries

-- The entries of some tasks.
abbrev pub outs : {A : Type 0} → (A → Data) → List A → List Entry
outs out [] = []
outs out (x ∷ xs) = (out x).entries ++ outs out xs

module _ {W : Type 0} where
  abbrev pub tasks_entries : List (Task W) → List Entry
  tasks_entries ts = outs (λ t. t.out) ts

  abbrev pub running_entries : List (Running W) → List Entry
  running_entries rs = outs (λ r. r.out) rs

  -- The entries that wait: those of the coroutines that run, of the spawned tasks, and of the buffer.
  abbrev pub waiting : Manager W → List Entry
  waiting m = running_entries m.running ++ (tasks_entries m.tasks ++ entries_of m.buffer.inner)

  -- The entries that an action brings in.
  abbrev pub pushed : Action W → List Entry
  pushed (push_action d) = d.entries
  pushed flush_action = []
  pushed (timer_action r) = []
  pushed (add_action s) = []
  pushed (start_action i) = []
  pushed (continue_action i) = []

  abbrev pub all_pushed : List (Action W) → List Entry
  all_pushed [] = []
  all_pushed (a ∷ acts) = pushed a ++ all_pushed acts

  -- A sequence of actions: the entries of the coroutines that ended, and the state at the end.
  unfoldable pub run : List (Action W) → Manager W → List Entry × Manager W
  run [] m = ([], m)
  run (a ∷ acts) m =
      let (done, m1) = step a m in let (rest, m2) = run acts m1 in (reported done ++ rest, m2)

pub outs-append :
    {A : Type 0} (out : A → Data) (xs ys : List A)
    → outs out (xs ++ ys) ≡ outs out xs ++ outs out ys
outs-append out [] ys = refl
outs-append out (x ∷ xs) ys =
    ap (◌++◌ (out x).entries) (outs-append out xs ys)
    ∙ sym (append_assoc (out x).entries (outs out xs) (outs out ys))

pub entries_of-append : (ds es : List Data) → entries_of (ds ++ es) ≡ entries_of ds ++ entries_of es
entries_of-append [] es = refl
entries_of-append (d ∷ ds) es =
    ap (◌++◌ d.entries) (entries_of-append ds es)
    ∙ sym (append_assoc d.entries (entries_of ds) (entries_of es))

-- Merging a batch keeps every entry, in order.
pub entries-merge_all :
    (out : Data) (ds : List Data) → (merge_all out ds).entries ≡ out.entries ++ entries_of ds
unfolding merge_all merge_with
entries-merge_all out [] = sym (append-nil out.entries)
entries-merge_all out (d ∷ ds) =
    entries-merge_all (merge_with out d) ds ∙ append_assoc out.entries d.entries (entries_of ds)
