-- ===== src/Busy/Refresh.antt =====
-- `refresh`, with which every operation starts.
use chatgpt_mcp_clean.Base.{
  ℕ, ◌≡◌, refl, sym, ap, ap₂, ◌∙◌, ◌⊎◌, inl, inr, Bool, true, false, [], Table, Apart-nil,
}
use mathlib.Core.Bool.{false≢true}
use mathlib.Core.Path.{subst₂}
use chatgpt_mcp_clean.Base.Json.{Json}
use chatgpt_mcp_clean.Scope.{Host}
use chatgpt_mcp_clean.Busy.Claims.{
  Dates, Claim, Result, ok, err, StoreFile, missing, contents, Store, load, load_file,
}
use chatgpt_mcp_clean.Busy.Store.{
  Write, renamed, rewritten, broken, failed, Env, Action, ◌>>=◌, load_action, payload, persist,
  prune_loop, persist_if, prune, refresh,
}
use chatgpt_mcp_clean.Busy.Reload.{IsSoundTable, load-payload}
use chatgpt_mcp_clean.Busy.Passthrough.{IsPassthrough}
use chatgpt_mcp_clean.Busy.Pruning.{live, prune_loop_lem}

abbrev follow : {A B : Type 0} → (A → Action B) → Result A × Store → Result B × Store
follow f (r, s) = elim r [ ok a ↦ f a s | err e ↦ (err e, s) ]

-- A step that succeeds hands its value and the store to the next.
pub bind_of_ok :
    {A B : Type 0} (m : Action A) (f : A → Action B) (s : Store) {a : A} {s' : Store}
    → m s ≡ (ok a, s')
    → (m >>= f) s ≡ f a s'
bind_of_ok m f s e = ap (follow f) e

-- The file holds these claims and these other fields.
pub data Holds (file : StoreFile) (m : Table Claim) (p : Table Json) : Type 0 where
  written : file ≡ contents (payload m p) → Holds file m p
  absent : file ≡ missing → m ≡ [] → p ≡ [] → Holds file m p

-- The write goes through, by either of the two ways.
abbrev pub Works : Write → Type 0
Works renamed = Unit
Works rewritten = Unit
Works broken = ⊥
Works failed = ⊥

pub persist_lem :
    (w : Write) (s : Store)
    → Works w
    → persist w s ≡ (ok tt, record s { file = contents (payload s.claims s.passthrough) })
unfolding persist
persist_lem renamed s h = refl
persist_lem rewritten s h = refl
persist_lem broken s h = absurd h
persist_lem failed s h = absurd h

module _ (host : Host) (dates : Dates) where
  -- What the store and its file are once an operation has refreshed them.
  pub record Refreshed (env : Env) (m : Table Claim) (s : Store) : Type 0 where
    pub p' : Table Json
    pub file' : StoreFile
    pub runs :
        refresh host dates env s
        ≡ (ok tt, record { claims = live dates env.now m; passthrough = p'; file = file' })
    pub sound : IsPassthrough host p'
    pub holds : Holds file' (live dates env.now m) p'

  load_of_Holds :
      (s : Store) (m : Table Claim) (p : Table Json)
      → IsSoundTable host dates m
      → IsPassthrough host p
      → Holds s.file m p
      → load host dates false s ≡ ok (record s { claims = m; passthrough = p })
  load_of_Holds s m p sound h (written e) = load-payload host dates s m p sound h.apart e
  load_of_Holds s m p sound h (absent e no_claims no_fields) =
      opened
      ∙ ap₂ (λ x y. ok (record s { claims = x; passthrough = y })) (sym no_claims) (sym no_fields)
    where
      opened : load host dates false s ≡ load_file host dates missing s
      opened = unfold load in ap (λ f. load_file host dates f s) e

  abbrev file_after : Bool → Table Claim → Table Json → StoreFile → StoreFile
  file_after true m p file = contents (payload m p)
  file_after false m p file = file

  persist_if_lem :
      (b : Bool) (w : Write) (s : Store)
      → Works w
      → persist_if b w s ≡ (ok tt, record s { file = file_after b s.claims s.passthrough s.file })
  persist_if_lem true w s h = persist_lem w s h
  persist_if_lem false w s h = refl

  file_after-Holds :
      (b : Bool) (now : ℕ) (m : Table Claim) (p p' : Table Json) (file : StoreFile)
      → Holds file m p
      → (b ≡ true) ⊎ ((b ≡ false) × (live dates now m ≡ m) × (p' ≡ p))
      → Holds (file_after b (live dates now m) p' file) (live dates now m) p'
  file_after-Holds true now m p p' file h u = written refl
  file_after-Holds false now m p p' file h (inl e) = absurd (false≢true e)
  file_after-Holds false now m p p' file h (inr (_, whole, same)) =
      subst₂ (Holds file) (sym whole) (sym same) h

  prune_lem :
      (env : Env) (m : Table Claim) (p : Table Json) (file : StoreFile) {b : Bool} {s' : Store}
      → prune_loop host dates env.now m false (record { claims = m; passthrough = p; file = file })
        ≡ (ok b, s')
      → Works env.prune_write
      → prune host dates env (record { claims = m; passthrough = p; file = file })
        ≡ (ok tt, record s' { file = file_after b s'.claims s'.passthrough s'.file })
  unfolding prune
  prune_lem env m p file {b} {s'} e works =
      bind_of_ok (prune_loop host dates env.now m false) (λ c. persist_if c env.prune_write)
        (record { claims = m; passthrough = p; file = file }) e
      ∙ persist_if_lem b env.prune_write s' works

  -- Whatever the store had in memory, after `refresh` it has the claims in the file whose lease is
  -- not over, and the file holds the same. The file can be read and the write after pruning goes
  -- through. The file is missing, or what `persist` writes for claims each under its own canonical
  -- scope, one for each, with a time that can be read and no further field called actor, scope or
  -- timestamp, and for other fields of which none is the claims and in which no job of the
  -- coordinator has a blank key. A file that cannot be parsed, one with two claims of the same
  -- canonical scope, and one with a blank job key are outside.
  pub refresh_lem :
      (env : Env) (s : Store) (m : Table Claim) (p : Table Json)
      → env.unreadable ≡ false
      → Works env.prune_write
      → IsSoundTable host dates m
      → IsPassthrough host p
      → Holds s.file m p
      → Refreshed env m s
  unfolding refresh
  refresh_lem env s m p readable works sound h holds =
      let pruned =
        prune_loop_lem host dates env.now [] m p s.file false (Apart-nil m) sound.distinct h in
      record {
        p' = pruned.p';
        file' = file_after pruned.changed' (live dates env.now m) pruned.p' s.file;
        runs =
            bind_of_ok (load_action host dates env.unreadable) (λ _. prune host dates env) s
              (loaded env.unreadable readable)
            ∙ prune_lem env m p s.file pruned.runs works;
        sound = pruned.sound;
        holds =
            file_after-Holds pruned.changed' env.now m p pruned.p' s.file holds pruned.unchanged;
      }
    where
      loaded :
          (unreadable : Bool)
          → unreadable ≡ false
          → load_action host dates unreadable s ≡ (ok tt, record s { claims = m; passthrough = p })
      loaded unreadable e =
          ap (λ b. load_action host dates b s) e
          ∙ ap (λ r. started r) (load_of_Holds s m p sound h holds)
        where
          started : Result Store → Result (Unit {0}) × Store
          started r = elim r [ ok s' ↦ (ok tt, s') | err e ↦ (err e, s) ]
