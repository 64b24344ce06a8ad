-- ===== src/Net/Address.antt =====
-- Socket addresses of `std::net`, which both programs calculate from their command lines.
use lightvideo.Prelude.{ℕ, ◌≡◌, ◌<◌, ◌^◌, Option, some}
use lightvideo.Prelude.Words.{add16}

-- The texts of addresses and their values, of both kinds or of version 4 alone.
pub record Addresses : Type 1 where
  pub Text : Type 0
  pub SocketAddr : Type 0
  pub port : SocketAddr → ℕ
  pub set_port : SocketAddr → ℕ → SocketAddr
  pub parse : Text → Option SocketAddr
  pub parse_v4 : Text → Option SocketAddr
  pub to_string : SocketAddr → Text

module _ (addresses : Addresses) where
  open addresses use {SocketAddr, port, set_port, parse, parse_v4}

  -- `a.set_port(a.port() + n)`, which wraps as in a release build.
  abbrev pub shift_port : ℕ → SocketAddr → SocketAddr
  shift_port n a = set_port a (add16 (port a) n)

  pub record AddressLaws : Type 0 where
    pub port-set_port : (a : SocketAddr) (n : ℕ) → n < 2 ^ 16 → port (set_port a n) ≡ n
    pub set_port-set_port : (a : SocketAddr) (m n : ℕ) → set_port (set_port a m) n ≡ set_port a n
    pub parse-parse_v4 :
        (t : addresses.Text) (a : SocketAddr) → parse_v4 t ≡ some a → parse t ≡ some a
