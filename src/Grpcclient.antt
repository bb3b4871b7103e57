-- ===== src/Grpcclient.antt =====
-- grpcclient/client.go, over the gRPC library, which is not part of this repository: what NewClient
-- returns is a function of the calls made before it, and its connections have numbers.
pub mod Laws
mod Scenarios
use go_rkvstcommon.Prelude.{ℕ, String, Option, none, some, List, [], ◌∷◌, ◌++◌}
use go_rkvstcommon.Prelude.Outcome.{Outcome, ok, err, panic}

-- A call of the library; the options are those of the client, by their numbers.
pub data Call : Type 0 where
  new_client : String → List ℕ → Call
  close_connection : ℕ → Call

-- type Client struct
pub record Client : Type 0 where
  pub name : String
  pub address : String
  pub conn : Option ℕ
  pub options : List ℕ

-- The client and the calls made
abbrev pub World : Type 0
World = Client × List Call

-- WithDialOptions
abbrev pub with_dial_options : List ℕ → Client → Client
with_dial_options d t = record {
  name = t.name;
  address = t.address;
  conn = t.conn;
  options = t.options ++ d;
}

-- for _, opt := range opts { opt(&t) }
unfoldable pub apply_options : List (Client → Client) → Client → Client
apply_options [] t = t
apply_options (opt ∷ opts) t = apply_options opts (opt t)

-- New
unfoldable pub new_grpc_client : String → String → List (Client → Client) → Client
unfolding apply_options
new_grpc_client name address opts =
    apply_options opts (record { name = name; address = address; conn = none; options = [] })

abbrev pub with_conn : Option ℕ → Client → Client
with_conn conn g = record { name = g.name; address = g.address; conn = conn; options = g.options }

-- (*Client).Connector
abbrev pub connector : Client → Option ℕ
connector g = g.conn

-- (*Client).Close
unfoldable pub close_from : Option ℕ → World → World
close_from none w = w
close_from (some c) w = (with_conn none w.0, w.1 ++ close_connection c ∷ [])

unfoldable pub close : World → World
unfolding close_from
close w = close_from w.0.conn w

module _ (answer : List Call → Call → Outcome String ℕ) where
  -- What Open makes of the answer of NewClient
  unfoldable pub opened : Outcome String ℕ → World → Outcome String (Unit {0}) × World
  opened (ok c) w = (ok tt, (with_conn (some c) w.0, w.1))
  opened (err e) w = (err e, w)
  opened panic w = (panic, w)

  unfoldable pub open_from : Option ℕ → World → Outcome String (Unit {0}) × World
  unfolding opened
  open_from (some c) w = (ok tt, w)
  open_from none w =
      let call = new_client w.0.address w.0.options in
      opened (answer w.1 call) (w.0, w.1 ++ call ∷ [])

  -- (*Client).Open
  unfoldable pub open_client : World → Outcome String (Unit {0}) × World
  unfolding open_from
  open_client w = open_from w.0.conn w
