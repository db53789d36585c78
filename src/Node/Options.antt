-- ===== src/Node/Options.antt =====
-- node/pkg/consensus/options.go: functional options of the protocol.
use multi_raft_storage.Prelude.{String, List, [], ◌∷◌}
use multi_raft_storage.Prelude.Int.{ℤ, pos}

abbrev pub default_port : ℤ
default_port = pos 8080

pub record Options : Type 0 where
  pub host : String
  pub port : ℤ

abbrev pub SetOption : Type 0
SetOption = Options → Options

-- the loop over the options, each of which changes the same struct
abbrev apply_all : List SetOption → Options → Options
apply_all [] o = o
apply_all (opt ∷ opts) o = apply_all opts (opt o)

-- `Options.apply`: the default port first, then each option in order
unfoldable pub apply : Options → List SetOption → Options
apply o opts = apply_all opts (record o { port = default_port })

unfoldable pub with_options : Options → SetOption
with_options opts _ = opts

unfoldable pub with_host : String → SetOption
with_host host o = record o { host = host }

unfoldable pub with_port : ℤ → SetOption
with_port port o = record o { port = port }
