-- ===== src/Tascii/Context/Replay.antt =====
-- workflows.rs: a task that is run again.
use laas_reflab.Prelude.{
  ℕ, suc, ◌+◌, ◌≡◌, refl, sym, ap, subst, ◌∙◌, arith, none, List, [], ◌∷◌, ◌++◌, map, take,
  get_elem?, length, length-append, ==-refl, ◌≢◌, ==-ne,
}
use mathlib.Core.List.{append_assoc, append-nil}
use laas_reflab.Tascii.Runtime.{World, Env, get_task}
use laas_reflab.Tascii.Scheduler.{Outcome, ok, panicked, deadlocked, ◌>>=◌, >>=-eq-ok, expect}
use laas_reflab.Tascii.Context.{
  LogEnt, ContextInner, Job, within, spawn_new, spawn, reset, spawn_all,
}

-- The entries that a list of new spawns leaves.
abbrev pub entries : List Job → List LogEnt
entries [] = []
entries (j ∷ js) = record { hash = j.hash; tid = j.fresh_id } ∷ entries js

abbrev pub ids : List LogEnt → List ℕ
ids [] = []
ids (e ∷ es) = e.tid ∷ ids es

abbrev pub hashes : List LogEnt → List ℕ
hashes [] = []
hashes (e ∷ es) = e.hash ∷ hashes es

get_elem?-length : (xs ys : List LogEnt) → get_elem? (xs ++ ys) (length xs) ≡ get_elem? ys 0
get_elem?-length [] ys = refl
get_elem?-length (x ∷ xs) ys = get_elem?-length xs ys

-- A call whose hash is the one logged at this place returns the task logged there.
spawn_logged :
    (env : Env) (j : Job) (before after : List LogEnt) (e : LogEnt) (own : ℕ) (w : World)
    → e.hash ≡ j.hash
    → spawn env j (record { log = before ++ e ∷ after; current_index = length before; tid = own }) w
      ≡ ok (
        e.tid,
        record { log = before ++ e ∷ after; current_index = length before + 1; tid = own },
        w,
      )
unfolding spawn
spawn_logged env j before after e own w h =
    ground (arith, get_elem?-length before (e ∷ after), ==-refl e.hash)

take-length : (xs ys : List LogEnt) → take (length xs) (xs ++ ys) ≡ xs
take-length [] ys = refl
take-length (x ∷ xs) ys = ap (◌∷◌ x) (take-length xs ys)

abbrev pub context : List LogEnt → ℕ → ℕ → ContextInner
context log index own = record { log = log; current_index = index; tid = own }

-- A run over jobs whose hashes are those logged next finds their tasks and changes nothing else.
spawn_all_logged :
    (env : Env) (js : List Job) (before es after : List LogEnt) (own : ℕ) (w : World)
    → hashes es ≡ map (λ j. j.hash) js
    → spawn_all env js (context (before ++ (es ++ after)) (length before) own) w
      ≡ ok (ids es, context (before ++ (es ++ after)) (length before + length es) own, w)
unfolding spawn_all
spawn_all_logged env [] before [] after own w h = ground (arith)
spawn_all_logged env [] before (e ∷ es) after own w h = cc
spawn_all_logged env (j ∷ js) before [] after own w h = cc
spawn_all_logged env (j ∷ js) before (e ∷ es) after own w h =
    let same : (before ++ e ∷ []) ++ (es ++ after) ≡ before ++ e ∷ (es ++ after) =
      append_assoc before (e ∷ []) (es ++ after) in
    let long : length (before ++ e ∷ []) ≡ length before + 1 = length-append before (e ∷ []) in
    let rest = spawn_all_logged env js (before ++ e ∷ []) es after own w (ground arith) in
    rw (spawn_logged env j before (es ++ after) e own w (ground arith))
      (rw (← same, ← long, rest) (ground (arith, long)))

get_elem?_end : (log : List LogEnt) → get_elem? log (length log) ≡ none
get_elem?_end [] = refl
get_elem?_end (e ∷ log) = get_elem?_end log

-- A new task is logged at the end of what the log holds.
spawn_new_lem :
    (env : Env) (j : Job) (c : ContextInner) (w : World) (p : ℕ × ContextInner × World)
    → spawn_new env j c w ≡ ok p
    → (p.0 ≡ j.fresh_id) × (p.1 ≡ context (c.log ++ entries (j ∷ [])) (c.current_index + 1) c.tid)
unfolding spawn_new
spawn_new_lem env j c w p e =
    let (t, g, q) = >>=-eq-ok (expect (get_task env _ c.tid)) _ e in (ground arith, ground arith)

spawn_end :
    (env : Env) (j : Job) (log : List LogEnt) (own : ℕ) (w : World) (p : ℕ × ContextInner × World)
    → spawn env j (context log (length log) own) w ≡ ok p
    → (p.0 ≡ j.fresh_id) × (p.1 ≡ context (log ++ entries (j ∷ [])) (length log + 1) own)
unfolding spawn
spawn_end env j log own w p e =
    spawn_new_lem env j (context log (length log) own) w p (ground (arith, get_elem?_end log))

spawn_all_end :
    (env : Env) (js : List Job) (log : List LogEnt) (own : ℕ) (w : World)
    (p : List ℕ × ContextInner × World)
    → spawn_all env js (context log (length log) own) w ≡ ok p
    → (p.0 ≡ ids (entries js)) × (p.1 ≡ context (log ++ entries js) (length log + length js) own)
unfolding spawn_all
spawn_all_end env [] log own w p e = (ground arith, ground (arith, append-nil log))
spawn_all_end env (j ∷ js) log own w p e =
    let (a, s, e') = >>=-eq-ok (spawn env j (context log (length log) own) w) _ e in
    let (id, c) = spawn_end env j log own w a s in
    let (b, r, q) = >>=-eq-ok (spawn_all env js a.1 a.2) _ e' in
    let log' = log ++ entries (j ∷ []) in
    let long : length log' ≡ length log + 1 = length-append log (entries (j ∷ [])) in
    let here : a.1 ≡ context log' (length log') own = c ∙ ap (λ n. context log' n own) (sym long) in
    let (more, last) =
      spawn_all_end env js log' own a.2 b (subst (λ c. spawn_all env js c a.2 ≡ ok b) here r) in
    (ground arith, ground (arith, long, append_assoc log (entries (j ∷ [])) (entries js)))

abbrev Run : Type 0
Run = List ℕ × ContextInner × World

-- A run with the ids of an earlier part put in front.
abbrev after_ids : List ℕ → Outcome Run → Outcome Run
after_ids front m = m >>= λ q. ok (front ++ q.0, q.1, q.2)

after_ids-nil : (m : Outcome Run) → m ≡ after_ids [] m
after_ids-nil (ok q) = refl
after_ids-nil panicked = refl
after_ids-nil deadlocked = refl

after_ids-cons :
    (id : ℕ) (front : List ℕ) (m : Outcome Run)
    → (after_ids front m >>= λ q. ok (id ∷ q.0, q.1, q.2)) ≡ after_ids (id ∷ front) m
after_ids-cons id front (ok q) = refl
after_ids-cons id front panicked = refl
after_ids-cons id front deadlocked = refl

spawn_all-append :
    (env : Env) (js more : List Job) (c : ContextInner) (w : World) (p : Run)
    → spawn_all env js c w ≡ ok p
    → spawn_all env (js ++ more) c w ≡ after_ids p.0 (spawn_all env more p.1 p.2)
unfolding spawn_all
spawn_all-append env [] more c w p e =
    let same : (([], c, w) ≡ p) = ground arith in
    subst (λ (p : Run). spawn_all env more c w ≡ after_ids p.0 (spawn_all env more p.1 p.2)) same
      (after_ids-nil (spawn_all env more c w))
spawn_all-append env (j ∷ js) more c w p e =
    let (a, s, e') = >>=-eq-ok (spawn env j c w) _ e in
    let (b, r, q) = >>=-eq-ok (spawn_all env js a.1 a.2) _ e' in
    let rest = spawn_all-append env js more a.1 a.2 b r in
    let same : ((a.0 ∷ b.0, b.1, b.2) ≡ p) = ground arith in
    subst
      (λ (p : Run).
        spawn_all env (j ∷ (js ++ more)) c w ≡ after_ids p.0 (spawn_all env more p.1 p.2))
      same (rw (s, rest) (after_ids-cons a.0 b.0 (spawn_all env more b.1 b.2)))

hashes-entries : (js : List Job) → hashes (entries js) ≡ map (λ j. j.hash) js
hashes-entries [] = refl
hashes-entries (j ∷ js) = ap (◌∷◌ j.hash) (hashes-entries js)

length-entries : (js : List Job) → length (entries js) ≡ length js
length-entries [] = refl
length-entries (j ∷ js) = ap suc (length-entries js)

-- A task ran, spawning `js`, and is run again, spawning tasks of the same hashes and then `more`,
-- in whatever world there is by then and whatever ids it would draw. The spawns that were logged
-- return the ids of the first run, create nothing and send nothing, and those of `more` go on as
-- from the end of the first run.
pub spawn_all_again :
    (env : Env) (js again more : List Job) (own : ℕ) (w v : World)
    (p : List ℕ × ContextInner × World)
    → spawn_all env js (within own) w ≡ ok p
    → map (λ j. j.hash) again ≡ map (λ j. j.hash) js
    → spawn_all env (again ++ more) (reset p.1) v
      ≡ (spawn_all env more p.1 v >>= λ q. ok (p.0 ++ q.0, q.1, q.2))
unfolding within reset
spawn_all_again env js again more own w v p e h =
    let (found, last) = spawn_all_end env js [] own w p e in
    let logged = spawn_all_logged env again [] (entries js) [] own v (hashes-entries js ∙ sym h) in
    let replayed : spawn_all env again (reset p.1) v ≡ ok (p.0, p.1, v) =
      ground (arith, logged, append-nil (entries js), length-entries js) in
    spawn_all-append env again more (reset p.1) v (p.0, p.1, v) replayed

-- A call whose hash is not the one logged at this place forgets that entry and all later ones,
-- keeps the earlier ones, and logs the new task after them.
spawn_misaligned :
    (env : Env) (j : Job) (before after : List LogEnt) (logged : LogEnt) (own : ℕ) (w : World)
    (p : ℕ × ContextInner × World)
    → logged.hash ≢ j.hash
    → spawn env j (context (before ++ logged ∷ after) (length before) own) w ≡ ok p
    → (p.0 ≡ j.fresh_id) × (p.1 ≡ context (before ++ entries (j ∷ [])) (length before + 1) own)
unfolding spawn
spawn_misaligned env j before after logged own w p h e =
    spawn_new_lem env j (context before (length before) own) w p (
      ground (
        arith,
        get_elem?-length before (logged ∷ after),
        take-length before (logged ∷ after),
        ==-ne logged.hash j.hash h,
      ))
