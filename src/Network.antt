-- ===== src/Network.antt =====
-- src/network.rs: whether a URL leads to a publicly reachable web host.
pub mod IpAddrExt
use retrack.Prelude.{if◌then◌else◌, all, Bool, false, not, ◌&&◌, Option, none, some, List, str_eq}
use retrack.Exec.{◌>>=◌, Exec, pure}
use retrack.Types.{Url}
use retrack.Env.{Env, Host, domain, ip}
use retrack.Network.IpAddrExt.{IpAddr, is_global}
use retrack.Db.{World, observe}

abbrev pub all_global : Option (List IpAddr) → Bool
all_global none = false
all_global (some lookup) = all is_global lookup

abbrev pub host_is_public : Env → Option Host → Exec World Bool
host_is_public env none = pure false
host_is_public env (some (ip a)) = pure (is_global a)
host_is_public env (some (domain d)) = do
  lookup ← observe (λ m. env.lookup_ip m d)
  pure (all_global lookup)

unfoldable pub is_public_web_url : Env → Url → Exec World Bool
is_public_web_url env url w =
    if not (str_eq (env.scheme url) "http") && not (str_eq (env.scheme url) "https")
    then pure false w
    else host_is_public env (env.host url) w
