-- ===== src/Child/Kept.antt =====
-- What the environment of a child process keeps, in src/lib/process-child-environment.ts.
use chatgpt_mcp_clean.Base.{
  ℕ, ◌==◌, filter, Bool, true, false, not, ◌&&◌, ◌||◌, some, List, [], ◌∷◌, ◌++◌, any,
  if◌then◌else◌, if-cases, Text, codes, text_eq, text_eq_iff, Table, lookup, insert, lookup-insert,
  ◌≡◌, ◌≢◌, refl, sym, ap, ◌∙◌, subst, append_assoc, append-nil, arith,
}
use chatgpt_mcp_clean.Child.{
  Host, or_empty, value_of, is_blank, path_key, enabled, contains, before, behind, split_on,
  put_before, put_behind, add_encoding, joined, add_local_bin, add_python_src, add_android,
  add_busy, already_prefixed, put_first, add_proxy, trimmed, proxy_dir, android_roots,
  process_child_environment,
}

-- The parts of a text between delimiters, blank ones left out: the paths of a list of paths.
abbrev pub paths : ℕ → Text → List Text
paths d t = let parts = split_on d t in filter (λ part. not (is_blank part)) (parts.0 ∷ parts.1)

-- The paths of the old text are there in the new one, next to each other and in their order, with
-- others before and behind them.
abbrev pub Within : ℕ → Text → Text → Type 0
Within d old new =
    (front : List Text) × (back : List Text) × (paths d new ≡ front ++ (paths d old ++ back))

abbrev add_parts : List Text → Text × List Text → Text × List Text
add_parts more parts = (parts.0, parts.1 ++ more)

split_on-concat :
    (d : ℕ) (a b : Text)
    → split_on d (a ++ (d ∷ b)) ≡ add_parts ((split_on d b).0 ∷ (split_on d b).1) (split_on d a)
unfolding split_on
split_on-concat d [] b = at_start (d == d) (ground arith)
  where
    at_start :
        (t : Bool)
        → t ≡ true
        → (if t
            then ([], (split_on d b).0 ∷ (split_on d b).1)
            else (d ∷ (split_on d b).0, (split_on d b).1))
          ≡ add_parts ((split_on d b).0 ∷ (split_on d b).1) ([], [])
    at_start true e = refl
    at_start false e = absurd (cc e)
split_on-concat d (c ∷ a) b = ap (add_unit (c == d)) (split_on-concat d a b) ∙ at_unit (c == d)
  where
    more : List Text
    more = (split_on d b).0 ∷ (split_on d b).1

    add_unit : Bool → Text × List Text → Text × List Text
    add_unit t rest = if t then ([], rest.0 ∷ rest.1) else (c ∷ rest.0, rest.1)

    at_unit :
        (t : Bool)
        → add_unit t (add_parts more (split_on d a)) ≡ add_parts more (add_unit t (split_on d a))
    at_unit true = refl
    at_unit false = refl

filter-concat :
    (keep : Text → Bool) (xs ys : List Text)
    → filter keep (xs ++ ys) ≡ filter keep xs ++ filter keep ys
filter-concat keep [] ys = refl
filter-concat keep (x ∷ xs) ys = ground (arith, filter-concat keep xs ys)

paths-concat : (d : ℕ) (a b : Text) → paths d (a ++ (d ∷ b)) ≡ paths d a ++ paths d b
paths-concat d a b =
    ap (λ parts. filter (λ part. not (is_blank part)) (parts.0 ∷ parts.1)) (split_on-concat d a b)
    ∙ filter-concat (λ part. not (is_blank part)) ((split_on d a).0 ∷ (split_on d a).1)
        ((split_on d b).0 ∷ (split_on d b).1)

Within-same : (d : ℕ) (t : Text) → Within d t t
Within-same d t = ([], [], sym (append-nil (paths d t)))

Within-nil : (d : ℕ) (t : Text) → Within d [] t
unfolding split_on
Within-nil d t = ([], paths d t, refl)

Within-trans : (d : ℕ) (a b c : Text) → Within d a b → Within d b c → Within d a c
Within-trans d a b c (f, g, e) (h, k, i) = (
  h ++ f,
  g ++ k,
  i
      ∙ ap (λ t. h ++ (t ++ k)) e
      ∙ ap (◌++◌ h) (append_assoc f (paths d a ++ g) k ∙ ap (◌++◌ f) (append_assoc (paths d a) g k))
      ∙ sym (append_assoc h f (paths d a ++ (g ++ k))),
)

-- The variables that may change, with `key` the one for paths.
abbrev pub may_change : Text → Text → Bool
may_change key name =
    any (λ n. text_eq n name)
      (key ∷ codes "PYTHONPATH" ∷ codes "PYTHONIOENCODING" ∷ codes "GHBUF_PROXY_DIR" ∷ [])

abbrev Grows : ℕ → Text → Table Text → Table Text → Type 0
Grows d key old new =
    (name : Text)
    → Within d (value_of name old) (value_of name new)
      × (may_change key name ≡ false → lookup name new ≡ lookup name old)

Grows-same : (d : ℕ) (key : Text) (env : Table Text) → Grows d key env env
Grows-same d key env name = (Within-same d (value_of name env), λ _. refl)

Grows-trans :
    (d : ℕ) (key : Text) (a b c : Table Text) → Grows d key a b → Grows d key b c → Grows d key a c
Grows-trans d key a b c h k name = (
  Within-trans d (value_of name a) (value_of name b) (value_of name c) (h name).0 (k name).0,
  λ e. (k name).1 e ∙ (h name).1 e,
)

Grows-insert :
    (d : ℕ) (key name value : Text) (env : Table Text)
    → may_change key name ≡ true
    → Within d (value_of name env) value
    → Grows d key env (insert name value env)
Grows-insert d key name value env allowed within other =
    go (text_eq name other) refl (lookup-insert name other value env)
  where
    go :
        (b : Bool)
        → text_eq name other ≡ b
        → lookup other (insert name value env) ≡ (if b then some value else lookup other env)
        → Within d (value_of other env) (value_of other (insert name value env))
          × (may_change key other ≡ false → lookup other (insert name value env) ≡ lookup other env)
    go true same found =
        let equal : name ≡ other = (text_eq_iff name other).0 same in
        (
          subst (Within d (value_of other env)) (sym (ap or_empty found))
              (subst (λ n. Within d (value_of n env) value) equal within),
          λ refused.
              let allowed_too : may_change key other ≡ true =
                subst (λ n. may_change key n ≡ true) equal allowed in
              absurd (cc (refused, allowed_too)),
        )
    go false apart found = (
      subst (Within d (value_of other env)) (sym (ap or_empty found))
          (Within-same d (value_of other env)),
      λ _. found,
    )

module _ (host : Host) (key : Text) where
  Within-before : (dir path : Text) → Within host.delimiter path (before host dir path)
  Within-before dir path = go path
    where
      go : (path : Text) → Within host.delimiter path (before host dir path)
      go [] = Within-nil host.delimiter dir
      go (c ∷ path) = (
        paths host.delimiter dir,
        [],
        paths-concat host.delimiter dir (c ∷ path)
            ∙ ap (◌++◌ (paths host.delimiter dir))
                (sym (append-nil (paths host.delimiter (c ∷ path)))),
      )

  Within-behind : (dir path : Text) → Within host.delimiter path (behind host dir path)
  Within-behind dir path = go path
    where
      go : (path : Text) → Within host.delimiter path (behind host dir path)
      go [] = Within-nil host.delimiter dir
      go (c ∷ path) = ([], paths host.delimiter dir, paths-concat host.delimiter (c ∷ path) dir)

  put_before-Grows :
      (name dir : Text) (env : Table Text)
      → may_change key name ≡ true
      → Grows host.delimiter key env (put_before host name dir env)
  put_before-Grows name dir env allowed =
      if-cases (Grows host.delimiter key env) (contains host dir (value_of name env))
        (λ _. Grows-same host.delimiter key env)
        λ _.
          Grows-insert host.delimiter key name (before host dir (value_of name env)) env allowed
            (Within-before dir (value_of name env))

  put_behind-Grows :
      (name dir : Text) (env : Table Text)
      → may_change key name ≡ true
      → Grows host.delimiter key env (put_behind host name dir env)
  put_behind-Grows name dir env allowed =
      if-cases (Grows host.delimiter key env) (contains host dir (value_of name env))
        (λ _. Grows-same host.delimiter key env)
        λ _.
          Grows-insert host.delimiter key name (behind host dir (value_of name env)) env allowed
            (Within-behind dir (value_of name env))

  key_may : may_change key key ≡ true
  key_may = let same = (text_eq_iff key key).1 refl in ground arith

  or_right : (b c : Bool) → c ≡ true → (b || c) ≡ true
  or_right true c e = refl
  or_right false c e = e

  src_may : may_change key (codes "PYTHONPATH") ≡ true
  unfolding text_eq
  src_may = or_right (text_eq key (codes "PYTHONPATH")) true refl

  encoding_may : may_change key (codes "PYTHONIOENCODING") ≡ true
  unfolding text_eq
  encoding_may = or_right (text_eq key (codes "PYTHONIOENCODING")) true refl

  proxy_may : may_change key (codes "GHBUF_PROXY_DIR") ≡ true
  unfolding text_eq
  proxy_may = or_right (text_eq key (codes "GHBUF_PROXY_DIR")) true refl

  add_encoding-Grows : (env : Table Text) → Grows host.delimiter key env (add_encoding host env)
  unfolding add_encoding
  add_encoding-Grows env = go (value_of name env) refl
    where
      name : Text
      name = codes "PYTHONIOENCODING"

      go :
          (old : Text)
          → value_of name env ≡ old
          → Grows host.delimiter key env
              (if is_blank old then insert name (codes "utf-8") env else env)
      go [] e = Grows-insert host.delimiter key name (codes "utf-8") env encoding_may (
          subst (λ t. Within host.delimiter t (codes "utf-8")) (sym e)
            (Within-nil host.delimiter (codes "utf-8")))
      go (c ∷ old) e = Grows-same host.delimiter key env

  add_local_bin-Grows :
      (directory : Text) (env : Table Text)
      → Grows host.delimiter key env (add_local_bin host key directory env)
  unfolding add_local_bin
  add_local_bin-Grows directory env =
      let bin : Text =
        if is_blank directory
        then []
        else host.join (host.join directory (codes "node_modules")) (codes ".bin") in
      if-cases (Grows host.delimiter key env) (not (is_blank bin) && host.file_exists bin)
        (λ _. put_before-Grows key bin env key_may) λ _. Grows-same host.delimiter key env

  add_python_src-Grows :
      (directory : Text) (env : Table Text)
      → Grows host.delimiter key env (add_python_src host directory env)
  unfolding add_python_src
  add_python_src-Grows directory env =
      let src = joined host directory (codes "src") in
      let project = joined host directory (codes "pyproject.toml") in
      if-cases (Grows host.delimiter key env)
        (not (is_blank src)
          && not (is_blank project)
          && host.file_exists src
          && host.file_exists project)
        (λ _. put_before-Grows (codes "PYTHONPATH") src env src_may)
        λ _. Grows-same host.delimiter key env

  add_android-Grows :
      (roots : List Text) (env : Table Text)
      → Grows host.delimiter key env (add_android host key roots env)
  unfolding add_android
  add_android-Grows [] env = Grows-same host.delimiter key env
  add_android-Grows (root ∷ roots) env =
      let tools = host.join root (codes "platform-tools") in
      if-cases (Grows host.delimiter key env)
        (not (is_blank root) && host.file_exists (host.join tools (codes "adb.exe")))
        (λ _. put_before-Grows key tools env key_may) λ _. add_android-Grows roots env

  add_busy-Grows :
      (data_dir : Text) (env : Table Text)
      → Grows host.delimiter key env (add_busy host key data_dir env)
  unfolding add_busy
  add_busy-Grows data_dir env =
      let dir = joined host data_dir (codes "BusyCoordinator") in
      let command = joined host dir (codes "busy-python.cmd") in
      if-cases (Grows host.delimiter key env) (not (is_blank command) && host.file_exists command)
        (λ _. put_behind-Grows key dir env key_may) λ _. Grows-same host.delimiter key env

  put_first-Grows :
      (dir : Text) (env : Table Text) → Grows host.delimiter key env (put_first host key dir env)
  put_first-Grows dir env =
      if-cases (Grows host.delimiter key env) (already_prefixed host (value_of key env) dir)
        (λ _. Grows-same host.delimiter key env)
        λ _.
          Grows-insert host.delimiter key key (before host dir (value_of key env)) env key_may
            (Within-before dir (value_of key env))

-- No variable of the environment loses a path between the delimiters but `GHBUF_PROXY_DIR`, and only
-- that one, the one for paths, `PYTHONPATH` and `PYTHONIOENCODING` change at all.
abbrev pub Keeps : ℕ → Text → Table Text → Table Text → Type 0
Keeps d key old new =
    (name : Text)
    → (name ≢ codes "GHBUF_PROXY_DIR" → Within d (value_of name old) (value_of name new))
      × (may_change key name ≡ false → lookup name new ≡ lookup name old)

Keeps-Grows : (d : ℕ) (key : Text) (a b : Table Text) → Grows d key a b → Keeps d key a b
Keeps-Grows d key a b h name = ((λ _. (h name).0), (h name).1)

add_proxy-Keeps :
    (host : Host) (key proxy : Text) (a b : Table Text)
    → Grows host.delimiter key a b
    → Keeps host.delimiter key a (add_proxy host key proxy b)
unfolding add_proxy
add_proxy-Keeps host key proxy a b h =
    if-cases (Keeps host.delimiter key a) (is_blank proxy)
      (λ _. Keeps-Grows host.delimiter key a b h)
      λ _.
        if-cases (Keeps host.delimiter key a)
          (host.file_exists (host.join proxy (codes "gh.exe"))
            && host.file_exists (host.join proxy (codes "git.exe")))
          (λ _. set) λ _. Keeps-Grows host.delimiter key a b h
  where
    named : Text
    named = codes "GHBUF_PROXY_DIR"

    first : Table Text
    first = put_first host key proxy b

    set : Keeps host.delimiter key a (insert named proxy first)
    set name = go (text_eq named name) refl (lookup-insert named name proxy first)
      where
        grown : Grows host.delimiter key a first
        grown = Grows-trans host.delimiter key a b first h (put_first-Grows host key proxy b)

        go :
            (c : Bool)
            → text_eq named name ≡ c
            → lookup name (insert named proxy first) ≡ (if c then some proxy else lookup name first)
            → (name ≢ named
                → Within host.delimiter
                    (value_of name a)
                    (value_of name (insert named proxy first)))
              × (may_change key name ≡ false
                  → lookup name (insert named proxy first) ≡ lookup name a)
        go true same found = (
          (λ other. absurd (other (sym ((text_eq_iff named name).0 same)))),
          λ refused.
              let allowed =
                subst (λ n. may_change key n ≡ true) ((text_eq_iff named name).0 same)
                  (proxy_may host key) in
              absurd (cc (refused, allowed)),
        )
        go false apart found = (
          (λ _.
              subst (Within host.delimiter (value_of name a)) (sym (ap or_empty found))
                (grown name).0),
          λ e. found ∙ (grown name).1 e,
        )

-- For every variable but `GHBUF_PROXY_DIR`, the parts of its old value between the host's delimiters,
-- blank ones left out, are parts of its value in the environment of the child, next to each other
-- and in their order; so no path is lost. And but for that variable, the one for paths, `PYTHONPATH`
-- and `PYTHONIOENCODING`, every variable is as it was.
pub process_child_environment-Keeps :
    (host : Host) (directory : Text) (source : Table Text)
    → Keeps host.delimiter
        (path_key (add_encoding host source))
        source
        (process_child_environment host directory source)
unfolding process_child_environment
process_child_environment-Keeps host directory source =
    if-cases (Keeps host.delimiter key source)
      (enabled (value_of (codes "MCP_GHBUF_PROXY_ENABLED") source))
      (λ _. add_proxy-Keeps host key (proxy_dir host source) source with_busy grown)
      λ _. Keeps-Grows host.delimiter key source with_busy grown
  where
    encoded : Table Text
    encoded = add_encoding host source

    key : Text
    key = path_key encoded

    with_bin : Table Text
    with_bin = add_local_bin host key directory encoded

    with_src : Table Text
    with_src = add_python_src host directory with_bin

    with_tools : Table Text
    with_tools = add_android host key (android_roots host source) with_src

    with_busy : Table Text
    with_busy = add_busy host key (trimmed host (codes "LOCALAPPDATA") source) with_tools

    grown : Grows host.delimiter key source with_busy
    grown =
        Grows-trans host.delimiter key source with_tools with_busy
          (Grows-trans host.delimiter key source with_src with_tools
            (Grows-trans host.delimiter key source with_bin with_src
              (Grows-trans host.delimiter key source encoded with_bin
                (add_encoding-Grows host key source)
                (add_local_bin-Grows host key directory encoded))
              (add_python_src-Grows host key directory with_bin))
            (add_android-Grows host key (android_roots host source) with_src))
          (add_busy-Grows host key (trimmed host (codes "LOCALAPPDATA") source) with_tools)
