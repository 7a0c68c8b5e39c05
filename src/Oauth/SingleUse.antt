-- ===== src/Oauth/SingleUse.antt =====
-- Histories of the store after the exchange of an authorization code.
use chatgpt_mcp_clean.Base.{
  ◌≡◌, refl, sym, ap, subst, Bool, true, false, Option, none, List, arith, if◌then◌else◌, Text,
  text_eq, lookup, lookup-erase_self, lookup-filter, if-cases,
}
use chatgpt_mcp_clean.Oauth.Records.{
  CodeRecord, Client, StoreFile, saved, Provider, Result, ok, err, invalid_grant, Tokens, Config,
  Env, Error, store_write_failed,
}
use chatgpt_mcp_clean.Oauth.Store.{Action, prune, load, shape, persist, mutate, save, settle}
use chatgpt_mcp_clean.Oauth.Grants.{
  AuthorizationParams, authorize, get_code, check_code, redeem, redeem_found, mismatch,
  other_resource, issue_pair, exchange_code_in, exchange_authorization_code, revoke_token,
}
use chatgpt_mcp_clean.Oauth.Rotation.{exchange_refresh_token}
use chatgpt_mcp_clean.Oauth.Clients.{Registration, register_client, recover_legacy_chatgpt_client}
use chatgpt_mcp_clean.Oauth.Spares.{
  Lacks, load-Lacks, mutate-Lacks, authorize_in-Spares, exchange_code_in-Spares,
  exchange_refresh_in-Spares, register_in-Spares, recover_in-Spares,
}

module _ (cfg : Config) (key : Text) where
  -- The files that a row of mutations leaves, each by a process of its own. Every process can read
  -- the file, and no authorization draws a code with the digest `key`.
  pub data History (last : StoreFile) : StoreFile → Type 0 where
    done : History last last
    then_authorize :
        {file : StoreFile} (env : Env) (s : Provider) (client_id : Text)
        (params : AuthorizationParams)
        → s.file ≡ file
        → env.unreadable ≡ false
        → text_eq (cfg.digest env.first_token) key ≡ false
        → History last (authorize cfg env client_id params s).1.file
        → History last file
    then_exchange :
        {file : StoreFile} (env : Env) (s : Provider) (client_id code : Text)
        (redirect_uri resource : Option Text)
        → s.file ≡ file
        → env.unreadable ≡ false
        → History last
            (exchange_authorization_code cfg env client_id code redirect_uri resource s).1.file
        → History last file
    then_refresh :
        {file : StoreFile} (env : Env) (s : Provider) (client : Client) (token : Text)
        (scopes : Option (List Text)) (resource : Option Text)
        → s.file ≡ file
        → env.unreadable ≡ false
        → History last (exchange_refresh_token cfg env client token scopes resource s).1.file
        → History last file
    then_revoke :
        {file : StoreFile} (env : Env) (s : Provider) (token : Text)
        → s.file ≡ file
        → env.unreadable ≡ false
        → History last (revoke_token cfg env token s).1.file
        → History last file
    then_register :
        {file : StoreFile} (env : Env) (s : Provider) (raw : Registration)
        → s.file ≡ file
        → env.unreadable ≡ false
        → History last (register_client cfg env raw s).1.file
        → History last file
    then_recover :
        {file : StoreFile} (env : Env) (s : Provider) (client_id redirect_uri : Text)
        → s.file ≡ file
        → env.unreadable ≡ false
        → History last (recover_legacy_chatgpt_client cfg env client_id redirect_uri s).1.file
        → History last file

  Lacks-at : {f g : StoreFile} → f ≡ g → Lacks key g → Lacks key f
  Lacks-at e = subst (Lacks key) (sym e)

  History-Lacks : (last file : StoreFile) → History last file → Lacks key file → Lacks key last
  unfolding authorize exchange_authorization_code exchange_refresh_token revoke_token
      register_client recover_legacy_chatgpt_client
  History-Lacks last file done h = h
  History-Lacks last file (then_authorize env s client_id params e readable other rest) h =
      History-Lacks last _ rest (
        mutate-Lacks key _ env s (λ t. authorize_in-Spares key cfg env client_id params t other)
          readable (Lacks-at e h))
  History-Lacks last file (then_exchange env s client_id code redirect_uri resource e readable rest)
        h =
      History-Lacks last _ rest (
        mutate-Lacks key _ env s
          (λ t. exchange_code_in-Spares key cfg env client_id code redirect_uri resource t) readable
          (Lacks-at e h))
  History-Lacks last file (then_refresh env s client token scopes resource e readable rest) h =
      History-Lacks last _ rest (
        mutate-Lacks key _ env s
          (λ t. exchange_refresh_in-Spares key cfg env client token scopes resource t) readable
          (Lacks-at e h))
  History-Lacks last file (then_revoke env s token e readable rest) h = History-Lacks last _ rest (
      mutate-Lacks key _ env s (λ t. record { file = refl; codes = λ g. g }) readable
        (Lacks-at e h))
  History-Lacks last file (then_register env s raw e readable rest) h =
      History-Lacks last _ rest (
        mutate-Lacks key _ env s (λ t. register_in-Spares key cfg env raw t) readable
          (Lacks-at e h))
  History-Lacks last file (then_recover env s client_id redirect_uri e readable rest) h =
      History-Lacks last _ rest (
        mutate-Lacks key _ env s (λ t. recover_in-Spares key cfg env client_id redirect_uri t)
          readable (Lacks-at e h))

module _ (cfg : Config) (client_id code : Text) (redirect_uri resource : Option Text) where
  exchange_code_in-absent :
      (env : Env) (s : Provider)
      → lookup (cfg.digest code) s.codes ≡ none
      → (exchange_code_in cfg env client_id code redirect_uri resource s).0 ≡ err invalid_grant
  unfolding exchange_code_in get_code prune
  exchange_code_in-absent env s h =
      ap
        (λ o.
          (redeem_found cfg env client_id code redirect_uri resource (check_code env client_id o)
            (prune env.now s)).0)
        (lookup-filter _ (cfg.digest code) s.codes h)

  redeem-gone :
      (env : Env) (rec : CodeRecord) (s : Provider) {tokens : Tokens}
      → (redeem cfg env client_id code redirect_uri resource rec s).0 ≡ ok tokens
      → lookup (cfg.digest code) (redeem cfg env client_id code redirect_uri resource rec s).1.codes
        ≡ none
  unfolding redeem issue_pair
  redeem-gone env rec s {tokens} =
      if-cases
        (λ (r : Result Tokens × Provider).
          r.0 ≡ ok tokens → lookup (cfg.digest code) r.1.codes ≡ none)
        (mismatch redirect_uri rec.redirect_uri) (λ _ h. ground arith)
        λ _.
          if-cases
            (λ (r : Result Tokens × Provider).
              r.0 ≡ ok tokens → lookup (cfg.digest code) r.1.codes ≡ none)
            (other_resource cfg resource rec.resource) (λ _ h. ground arith)
            λ _ _. lookup-erase_self (cfg.digest code) s.codes

  exchange_code_in-gone :
      (env : Env) (s : Provider) {tokens : Tokens}
      → (exchange_code_in cfg env client_id code redirect_uri resource s).0 ≡ ok tokens
      → lookup
          (cfg.digest code)
          (exchange_code_in cfg env client_id code redirect_uri resource s).1.codes
        ≡ none
  unfolding exchange_code_in
  exchange_code_in-gone env s {tokens} =
      go (get_code cfg env client_id code s).0 (get_code cfg env client_id code s).1
    where
      go :
          (r : Result CodeRecord) (s' : Provider)
          → (redeem_found cfg env client_id code redirect_uri resource r s').0 ≡ ok tokens
          → lookup
              (cfg.digest code)
              (redeem_found cfg env client_id code redirect_uri resource r s').1.codes
            ≡ none
      go (err e) s' h = ground arith
      go (ok rec) s' h = redeem-gone env rec s' h

-- A mutation that replies has written what it leaves.
mutate-ok :
    {A : Type 0} (f : Action A) (env : Env) (s : Provider) {a : A}
    → (mutate env f s).0 ≡ ok a
    → ((f (load env s)).0 ≡ ok a)
      × ((mutate env f s).1.file ≡ saved (shape (prune env.now (f (load env s)).1)))
unfolding mutate persist shape
mutate-ok {A} f env s {a} h =
    by_flag env.unwritable (f (load env s)).0 (prune env.now (f (load env s)).1) h
  where
    by_flag :
        (b : Bool) (r : Result A) (t : Provider)
        → (settle r (save b t)).0 ≡ ok a
        → (r ≡ ok a) × ((settle r (save b t)).1.file ≡ saved (shape t))
    by_flag true r t g = ground arith
    by_flag false r t g = (g, refl)

mutate-err :
    {A : Type 0} (f : Action A) (env : Env) (s : Provider) {e : Error}
    → (f (load env s)).0 ≡ err e
    → (mutate env f s).0 ≡ err (if env.unwritable then store_write_failed else e)
unfolding mutate persist
mutate-err {A} f env s {e} h = by_flag env.unwritable (f (load env s)).0 h
  where
    by_flag :
        (b : Bool) (r : Result A)
        → r ≡ err e
        → (settle r (save b (prune env.now (f (load env s)).1))).0
          ≡ err (if b then store_write_failed else e)
    by_flag true r g = refl
    by_flag false r g = g

-- Once a code has been exchanged for tokens, it is exchanged never again: whatever mutations follow,
-- each in a process with whatever memory and with a file that it can read, every later exchange of
-- the code fails, for every client, as long as no authorization draws a code with the same digest.
pub exchange-once :
    (cfg : Config) (env : Env) (client_id code : Text) (redirect_uri resource : Option Text)
    (s : Provider) (tokens : Tokens)
    → (exchange_authorization_code cfg env client_id code redirect_uri resource s).0 ≡ ok tokens
    → (last : StoreFile)
    → History cfg
        (cfg.digest code)
        last
        (exchange_authorization_code cfg env client_id code redirect_uri resource s).1.file
    → (env' : Env) (client' : Text) (redirect' resource' : Option Text) (s' : Provider)
    → s'.file ≡ last
    → env'.unreadable ≡ false
    → (exchange_authorization_code cfg env' client' code redirect' resource' s').0
      ≡ err (if env'.unwritable then store_write_failed else invalid_grant)
unfolding exchange_authorization_code shape prune
exchange-once cfg env client_id code redirect_uri resource s tokens issued last history env' client'
      redirect' resource' s' at_last readable =
    let f = exchange_code_in cfg env client_id code redirect_uri resource in
    let (replied, written) = mutate-ok f env s issued in
    let first : Lacks (cfg.digest code) (mutate env f s).1.file = record {
      stored = shape (prune env.now (f (load env s)).1);
      is_saved = written;
      absent =
          lookup-filter _ (cfg.digest code) (f (load env s)).1.codes (
            exchange_code_in-gone cfg client_id code redirect_uri resource env (load env s)
              replied);
    } in
    let later = History-Lacks cfg (cfg.digest code) last _ history first in
    mutate-err (exchange_code_in cfg env' client' code redirect' resource') env' s' (
      exchange_code_in-absent cfg client' code redirect' resource' env' (load env' s') (
        load-Lacks (cfg.digest code) env' s' readable
          (subst (Lacks (cfg.digest code)) (sym at_last) later)))
