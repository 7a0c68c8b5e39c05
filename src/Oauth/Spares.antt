-- ===== src/Oauth/Spares.antt =====
-- What the mutations of the provider do to the table of codes.
use chatgpt_mcp_clean.Base.{
  ℕ, zero, suc, length, ◌≡◌, refl, sym, ap, subst, ◌∙◌, inl, inr, Bool, true, false, not, ◌||◌,
  Option, none, some, List, [], if◌then◌else◌, Text, text_eq, Table, lookup, lookup-insert,
  lookup-filter, Option-cases, if-cases, lookup-erase_absent,
}
use chatgpt_mcp_clean.Oauth.Records.{
  CodeRecord, TokenRecord, Client, Recent, StoreShape, StoreFile, missing, garbled, saved, Provider,
  Result, ok, err, Tokens, Config, Env,
}
use chatgpt_mcp_clean.Oauth.Store.{
  Action, prune, load, shape, persist, mutate, or_empty, load_file, save, has, settle,
}
use chatgpt_mcp_clean.Oauth.Grants.{
  AuthorizationParams, authorize_in, get_code, redeem, issue_pair, exchange_code_in, new_code,
  redeem_found, mismatch, other_resource,
}
use chatgpt_mcp_clean.Oauth.Rotation.{
  exchange_refresh_in, revoke_loop, revoked, rotate, renew_confidential, revoke_refresh_family,
  grant_access,
}
use chatgpt_mcp_clean.Oauth.Rotation.Cases.{exchange_refresh_in-Covers}
use chatgpt_mcp_clean.Oauth.Redirects.{is_uuid_client_id, is_chatgpt_redirect}
use chatgpt_mcp_clean.Oauth.Clients.{
  Registration, is_registrable, register_in, recover_in, make_client_room, room_loop, or_same,
  next_spare, evict_client,
}

-- The file is a store without the code.
pub record Lacks (key : Text) (file : StoreFile) : Type 0 where
  pub stored : StoreShape
  pub is_saved : file ≡ saved stored
  pub absent : lookup key (or_empty stored.codes) ≡ none

-- A function of a mutation that brings the code in neither, and leaves the file to `persist`.
pub record Spares (key : Text) (s s' : Provider) : Type 0 where
  pub file : s'.file ≡ s.file
  pub codes : lookup key s.codes ≡ none → lookup key s'.codes ≡ none

Spares-refl : (key : Text) (s : Provider) → Spares key s s
Spares-refl key s = record { file = refl; codes = λ h. h }

Spares-trans : (key : Text) (s t u : Provider) → Spares key s t → Spares key t u → Spares key s u
Spares-trans key s t u a b = record { file = b.file ∙ a.file; codes = λ h. b.codes (a.codes h) }

module _ (key : Text) where
  pub prune-Spares : (now : ℕ) (s : Provider) → Spares key s (prune now s)
  unfolding prune
  prune-Spares now s = record { file = refl; codes = lookup-filter _ key s.codes }

  load_file-file :
      (now : ℕ) (file : StoreFile) (s : Provider) → (load_file now file s).file ≡ s.file
  unfolding prune
  load_file-file now missing s = refl
  load_file-file now garbled s = refl
  load_file-file now (saved stored) s = refl

  load-file : (env : Env) (s : Provider) → (load env s).file ≡ s.file
  unfolding load
  load-file env s = by_flag env.unreadable
    where
      by_flag : (b : Bool) → (if b then s else load_file env.now s.file s).file ≡ s.file
      by_flag true = refl
      by_flag false = load_file-file env.now s.file s

  pub load-Lacks :
      (env : Env) (s : Provider)
      → env.unreadable ≡ false
      → Lacks key s.file
      → lookup key (load env s).codes ≡ none
  unfolding load prune
  load-Lacks env s readable h =
      ap (λ b. lookup key (if b then s else load_file env.now s.file s).codes) readable
      ∙ ap (λ f. lookup key (load_file env.now f s).codes) h.is_saved
      ∙ lookup-filter _ key (or_empty h.stored.codes) h.absent

  settle-Lacks :
      {A : Type 0} (r : Result A) (env : Env) (s : Provider)
      → Lacks key s.file
      → lookup key s.codes ≡ none
      → Lacks key (settle r (persist env s)).1.file
  unfolding persist prune shape
  settle-Lacks {A} r env s h gone = by_flag env.unwritable
    where
      by_flag : (b : Bool) → Lacks key (settle r (save b (prune env.now s))).1.file
      by_flag true = h
      by_flag false = record {
        stored = shape (prune env.now s);
        is_saved = refl;
        absent = lookup-filter _ key s.codes gone;
      }

  pub mutate-Lacks :
      {A : Type 0} (f : Action A) (env : Env) (s : Provider)
      → ((t : Provider) → Spares key t (f t).1)
      → env.unreadable ≡ false
      → Lacks key s.file
      → Lacks key (mutate env f s).1.file
  unfolding mutate
  mutate-Lacks f env s spares readable h =
      let spared = spares (load env s) in
      settle-Lacks (f (load env s)).0 env (f (load env s)).1
        (subst (Lacks key) (sym (spared.file ∙ load-file env s)) h)
        (spared.codes (load-Lacks env s readable h))

  pub get_code-Spares :
      (cfg : Config) (env : Env) (client_id code : Text) (s : Provider)
      → Spares key s (get_code cfg env client_id code s).1
  unfolding get_code
  get_code-Spares cfg env client_id code s = prune-Spares env.now s

  pub redeem-Spares :
      (cfg : Config) (env : Env) (client_id code : Text) (redirect_uri resource : Option Text)
      (rec : CodeRecord) (s : Provider)
      → Spares key s (redeem cfg env client_id code redirect_uri resource rec s).1
  unfolding redeem issue_pair
  redeem-Spares cfg env client_id code redirect_uri resource rec s =
      if-cases (λ (r : Result Tokens × Provider). Spares key s r.1)
        (mismatch redirect_uri rec.redirect_uri) (λ _. Spares-refl key s)
        λ _.
          if-cases (λ (r : Result Tokens × Provider). Spares key s r.1)
            (other_resource cfg resource rec.resource) (λ _. Spares-refl key s)
            λ _. record { file = refl; codes = lookup-erase_absent (cfg.digest code) key s.codes }

  pub exchange_code_in-Spares :
      (cfg : Config) (env : Env) (client_id code : Text) (redirect_uri resource : Option Text)
      (s : Provider)
      → Spares key s (exchange_code_in cfg env client_id code redirect_uri resource s).1
  unfolding exchange_code_in
  exchange_code_in-Spares cfg env client_id code redirect_uri resource s =
      go (get_code cfg env client_id code s).0 (get_code cfg env client_id code s).1
        (get_code-Spares cfg env client_id code s)
    where
      go :
          (r : Result CodeRecord) (s' : Provider)
          → Spares key s s'
          → Spares key s (redeem_found cfg env client_id code redirect_uri resource r s').1
      go (err e) s' h = h
      go (ok rec) s' h =
          Spares-trans key s s' _ h
            (redeem-Spares cfg env client_id code redirect_uri resource rec s')

  pub new_code-Spares :
      (cfg : Config) (env : Env) (client_id : Text) (params : AuthorizationParams) (s : Provider)
      (resource : Result Text) (scopes : Result (List Text))
      → text_eq (cfg.digest env.first_token) key ≡ false
      → Spares key s (new_code cfg env client_id params resource scopes s).1
  new_code-Spares cfg env client_id params s (err e) scopes other = Spares-refl key s
  new_code-Spares cfg env client_id params s (ok resource) (err e) other = Spares-refl key s
  new_code-Spares cfg env client_id params s (ok resource) (ok scopes) other = record {
    file = refl;
    codes = λ h. lookup-insert (cfg.digest env.first_token) key _ s.codes ∙ rw other h;
  }

  pub authorize_in-Spares :
      (cfg : Config) (env : Env) (client_id : Text) (params : AuthorizationParams) (s : Provider)
      → text_eq (cfg.digest env.first_token) key ≡ false
      → Spares key s (authorize_in cfg env client_id params s).1
  unfolding authorize_in
  authorize_in-Spares cfg env client_id params s other =
      new_code-Spares cfg env client_id params s _ _ other

  pub revoke_refresh_family-Spares :
      (k : Text) (s : Provider) → Spares key s (revoke_refresh_family k s)
  unfolding revoke_refresh_family
  revoke_refresh_family-Spares k s =
      go (
        revoke_loop (suc (suc (length s.refresh))) [] (some k) s.refresh
          s.recent_refresh_successors)
    where
      go : (o : Option (Table TokenRecord × Table Recent)) → Spares key s (revoked s o)
      go none = Spares-refl key s
      go (some (refresh, recent)) = record { file = refl; codes = λ h. h }

  pub exchange_refresh_in-Spares :
      (cfg : Config) (env : Env) (client : Client) (token : Text) (scopes : Option (List Text))
      (resource : Option Text) (s : Provider)
      → Spares key s (exchange_refresh_in cfg env client token scopes resource s).1
  unfolding rotate renew_confidential grant_access
  exchange_refresh_in-Spares cfg env client token scopes resource s =
      exchange_refresh_in-Covers cfg env client token s (λ r. Spares key s r.1)
        (record {
          refused = λ e. Spares-refl key s;
          replayed = λ rec scopes since a e. revoke_refresh_family-Spares (cfg.digest token) s;
          renewed = λ rec scopes a e. record { file = refl; codes = λ h. h };
          rotated = λ rec scopes a e. record { file = refl; codes = λ h. h };
          coalesced = λ rec scopes recent a. record { file = refl; codes = λ h. h };
        })
        scopes resource

  pub room_loop-Spares :
      (fuel : ℕ) (s t : Provider) → Spares key s t → Spares key s (or_same s (room_loop fuel t))
  unfolding room_loop
  room_loop-Spares zero s t h = Spares-refl key s
  room_loop-Spares (suc fuel) s t h = elim (Option-cases (next_spare t)) [
    | inl e ↦ rw (e, room_loop) h
    | inr (unused, e) ↦
        rw (e, room_loop)
          (room_loop-Spares fuel s (evict_client unused t)
            (record { file = h.file; codes = h.codes }))
  ]

  pub make_client_room-Spares : (s : Provider) → Spares key s (make_client_room s)
  unfolding make_client_room
  make_client_room-Spares s = room_loop-Spares (suc (length s.clients)) s s (Spares-refl key s)

  pub register_in-Spares :
      (cfg : Config) (env : Env) (raw : Registration) (s : Provider)
      → Spares key s (register_in cfg env raw s).1
  unfolding register_in
  register_in-Spares cfg env raw s =
      if-cases (λ (r : Result Client × Provider). Spares key s r.1) (is_registrable cfg raw)
        (λ _.
          let room =
            Spares-trans key s (prune env.now s) (make_client_room (prune env.now s))
              (prune-Spares env.now s) (make_client_room-Spares (prune env.now s)) in
          record { file = room.file; codes = room.codes })
        (λ _. Spares-refl key s)

  pub recover_in-Spares :
      (cfg : Config) (env : Env) (client_id redirect_uri : Text) (s : Provider)
      → Spares key s (recover_in cfg env client_id redirect_uri s).1
  unfolding recover_in
  recover_in-Spares cfg env client_id redirect_uri s =
      let pruned = prune-Spares env.now s in
      if-cases (λ (r : Result Bool × Provider). Spares key s r.1)
        (has client_id (prune env.now s).clients) (λ _. pruned)
        λ _.
          if-cases (λ (r : Result Bool × Provider). Spares key s r.1)
            (not (is_uuid_client_id client_id) || not (is_chatgpt_redirect cfg redirect_uri))
            (λ _. pruned) λ _. record { file = pruned.file; codes = pruned.codes }
