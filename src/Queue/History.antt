-- ===== src/Queue/History.antt =====
-- Sequences of calls of kernel/queue.c against a list of what was put on the queue.
use jeffos.Base.{ℕ, ◌≡◌, refl, ap, Option, none, some, List, [], ◌∷◌, ◌++◌, ◌⊎◌, inl, inr}
use mathlib.Core.Path.{ap₂, subst}
use jeffos.Status.{Outcome, ok, halted, ◌>>=◌}
use jeffos.Pages.Tables.Map.{NoneFree}
use jeffos.Pages.Alloc.Allocated.{NoPages}
use jeffos.Queue.{State, queue_add_head, queue_add_tail, queue_remove_head}
use jeffos.Queue.Links.{contents}
use jeffos.Queue.Ops.{
  IsState, AddEnd, queue_add_tail-AddEnd, queue_add_head-AddEnd, queue_remove_head-Removed,
}

pub data Call : Type 0 where
  add_head : ℕ → ℕ → Call
  add_tail : ℕ → ℕ → Call
  remove_head : Call

abbrev pub Answer : Type 0
Answer = Option (ℕ × ℕ)

-- A call of the code, and a sequence of them with the answers.
unfoldable pub call : State → Call → Outcome (State × Answer)
call s (add_head item dsize) = queue_add_head s item dsize >>= λ s'. ok (s', none)
call s (add_tail item dsize) = queue_add_tail s item dsize >>= λ s'. ok (s', none)
call s remove_head = queue_remove_head s

unfoldable pub calls : State → List Call → Outcome (State × List Answer)
calls s [] = ok (s, [])
calls s (c ∷ cs) = call s c >>= λ t. (calls t.0 cs >>= λ u. ok (u.0, t.1 ∷ u.1))

-- The same on a list.
unfoldable pub listed : List (ℕ × ℕ) → Call → List (ℕ × ℕ) × Answer
listed held (add_head item dsize) = ((item, dsize) ∷ held, none)
listed held (add_tail item dsize) = (held ++ (item, dsize) ∷ [], none)
listed [] remove_head = ([], none)
listed (x ∷ held) remove_head = (held, some x)

unfoldable pub all_listed : List (ℕ × ℕ) → List Call → List (ℕ × ℕ) × List Answer
all_listed held [] = (held, [])
all_listed held (c ∷ cs) =
    let (held', answer) = listed held c in
    let (held'', answers) = all_listed held' cs in (held'', answer ∷ answers)

-- No physical page is left for the nodes, or no room for it in the kernel's page table.
abbrev pub NoRoom : State → Type 0
NoRoom s = NoPages s.heap.memory.pmat 1 ⊎ NoneFree s.heap.memory.space.high 1

-- Where a call ends.
data CallEnd (s : State) (held' : List (ℕ × ℕ)) (answer : Answer)
    : Outcome (State × Answer) → Type 0 where
  answered :
      {s' : State} {a : Answer} (ns : List ℕ) (free live pages : ℕ → List ℕ)
      → IsState s' ns free live pages
      → contents s'.node ns ≡ held'
      → a ≡ answer
      → CallEnd s held' answer (ok (s', a))
  no_room : {r : Outcome (State × Answer)} → NoRoom s → CallEnd s held' answer r

-- Where a sequence ends: all in order and the answers of the list, or a call on the way had no room.
pub data CallsEnd (s : State) (cs : List Call) (held' : List (ℕ × ℕ)) (answers : List Answer)
    : Outcome (State × List Answer) → Type 0 where
  answered :
      {s' : State} {given : List Answer} (ns : List ℕ) (free live pages : ℕ → List ℕ)
      → IsState s' ns free live pages
      → contents s'.node ns ≡ held'
      → given ≡ answers
      → CallsEnd s cs held' answers (ok (s', given))
  no_room :
      {r : Outcome (State × List Answer)} (before after : List Call) (c : Call) (s₁ : State)
      (given : List Answer)
      → cs ≡ before ++ c ∷ after
      → calls s before ≡ ok (s₁, given)
      → NoRoom s₁
      → CallsEnd s cs held' answers r

add_end :
    {s : State} {place : ℕ → List ℕ} {held : List (ℕ × ℕ)} {live : ℕ → List ℕ} (r : Outcome State)
    → AddEnd s place held live r
    → CallEnd s held none (r >>= λ s'. ok (s', none))
add_end (ok s') (AddEnd.added n free' live' pages' new w e) =
    CallEnd.answered _ free' live' pages' w e refl
add_end (ok s') (AddEnd.starved none_left) = CallEnd.no_room (inl none_left)
add_end halted (AddEnd.no_entry none_free) = CallEnd.no_room (inr none_free)
add_end Outcome.out_of_fuel e = elim e [ ]

call-CallEnd :
    (s : State) (ns : List ℕ) (free live pages : ℕ → List ℕ) (c : Call)
    → IsState s ns free live pages
    → CallEnd s (listed (contents s.node ns) c).0 (listed (contents s.node ns) c).1 (call s c)
unfolding call listed contents
call-CallEnd s ns free live pages (add_head item dsize) v =
    add_end _ (queue_add_head-AddEnd s ns free live pages v item dsize)
call-CallEnd s ns free live pages (add_tail item dsize) v =
    add_end _ (queue_add_tail-AddEnd s ns free live pages v item dsize)
call-CallEnd s [] free live pages remove_head v =
    rw (queue_remove_head-Removed s [] free live pages v)
      (CallEnd.answered [] free live pages v refl refl)
call-CallEnd s (n ∷ ns) free live pages remove_head v =
    let (s', e, w, same) = queue_remove_head-Removed s (n ∷ ns) free live pages v in
    rw e (CallEnd.answered ns _ _ _ w same refl)

prepend :
    (s s' : State) (c : Call) (a : Answer) (cs : List Call) (held' : List (ℕ × ℕ)) (answer : Answer)
    (answers : List Answer) (r : Outcome (State × List Answer))
    → call s c ≡ ok (s', a)
    → a ≡ answer
    → CallsEnd s' cs held' answers r
    → CallsEnd s (c ∷ cs) held' (answer ∷ answers) (r >>= λ u. ok (u.0, a ∷ u.1))
unfolding calls
prepend s s' c a cs held' answer answers (ok (s'', given)) e f
      (CallsEnd.answered ns free live pages w same g) =
    CallsEnd.answered ns free live pages w same (ap₂ ◌∷◌ f g)
prepend s s' c a cs held' answer answers r e f
      (CallsEnd.no_room before after d s₁ given split reached none_left) =
    CallsEnd.no_room (c ∷ before) after d s₁ (a ∷ given) (ap (λ t. c ∷ t) split)
      (rw (e, reached) refl) none_left

-- What a sequence does from every queue in order that holds `held`.
abbrev Onward : List Call → Type 0
Onward cs =
    (s : State) (ns : List ℕ) (free live pages : ℕ → List ℕ)
    → IsState s ns free live pages
    → CallsEnd s cs (all_listed (contents s.node ns) cs).0 (all_listed (contents s.node ns) cs).1
        (calls s cs)

call_then :
    (s : State) (c : Call) (cs : List Call) (held : List (ℕ × ℕ))
    → Onward cs
    → (r : Outcome (State × Answer)) → call s c ≡ r
    → CallEnd s (listed held c).0 (listed held c).1 r
    → CallsEnd s
        (c ∷ cs)
        (all_listed held (c ∷ cs)).0
        (all_listed held (c ∷ cs)).1
        (r >>= λ t. (calls t.0 cs >>= λ u. ok (u.0, t.1 ∷ u.1)))
unfolding calls all_listed
call_then s c cs held onward (ok (s', a)) e (CallEnd.answered ns free live pages w same f) =
    prepend s s' c a cs _ _ _ (calls s' cs) e f (
      subst (λ h. CallsEnd s' cs (all_listed h cs).0 (all_listed h cs).1 (calls s' cs)) same
        (onward s' ns free live pages w))
call_then s c cs held onward r e (CallEnd.no_room none_left) =
    CallsEnd.no_room [] cs c s [] refl refl none_left

-- Any sequence of `queue_addHead`, `queue_addTail` and `queue_removeHead` on a queue in order gives
-- the answers of a list and leaves a queue in order that holds what the list does; or one of the calls
-- finds no physical page left, or no room in the kernel's page table.
pub calls-CallsEnd :
    (cs : List Call) (s : State) (ns : List ℕ) (free live pages : ℕ → List ℕ)
    → IsState s ns free live pages
    → CallsEnd s cs
        (all_listed (contents s.node ns) cs).0
        (all_listed (contents s.node ns) cs).1
        (calls s cs)
unfolding calls all_listed
calls-CallsEnd [] s ns free live pages v = CallsEnd.answered ns free live pages v refl refl
calls-CallsEnd (c ∷ cs) s ns free live pages v =
    call_then s c cs (contents s.node ns) (calls-CallsEnd cs) (call s c) refl
      (call-CallEnd s ns free live pages c v)
