-- ===== src/Child/Tests.antt =====
-- The environment of a child process on a small host.
use chatgpt_mcp_clean.Base.{
  true, some, [], ◌∷◌, ◌++◌, Text, codes, text_eq, to_lower, lower_unit, trim, trim_start, trim_end,
  is_space, Table, lookup, insert, ◌≡◌, refl,
}
use chatgpt_mcp_clean.Child.{
  Host, path_key, enabled, split_on, contains, add_encoding, add_local_bin, add_python_src,
  add_android, add_busy, already_prefixed, add_proxy, process_child_environment,
}
use chatgpt_mcp_clean.Child.Kept.{Keeps, process_child_environment-Keeps}

-- Every file is there.
abbrev small_host : Host
small_host = record {
  delimiter = b';';
  join = λ a b. a ++ (b'/' ∷ b);
  resolve = λ path. some path;
  lower = to_lower;
  file_exists = λ path. true;
}

abbrev before_child : Table Text
before_child = (codes "Path", codes "a;b") ∷ (codes "MCP_GHBUF_PROXY_DIR", codes "g") ∷ []

child_paths :
    lookup (codes "Path") (process_child_environment small_host (codes "w") before_child)
    ≡ some (codes "g;w/node_modules/.bin;a;b")
unfolding process_child_environment path_key enabled split_on contains add_encoding add_local_bin
    add_python_src add_android add_busy already_prefixed add_proxy lookup insert text_eq to_lower
    lower_unit trim trim_start trim_end is_space
child_paths = refl

process_child_environment-Keeps_example :
    Keeps small_host.delimiter
      (path_key (add_encoding small_host before_child))
      before_child
      (process_child_environment small_host (codes "w") before_child)
process_child_environment-Keeps_example =
    process_child_environment-Keeps small_host (codes "w") before_child
