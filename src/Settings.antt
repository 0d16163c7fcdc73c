-- ===== src/Settings.antt =====
-- Where a run of the command takes its settings from: flags, the JSON file (internal/yggss/config.go),
-- the SIP003 environment (internal/yggss/sip003.go), and cmd/yggss/main.go, which joins them.
pub mod Strings
pub mod Options
pub mod Config
pub mod Environment
pub mod Keys
pub mod Start
pub mod Address
pub mod Endpoint
pub mod NodeKey
pub mod KeyPrint
pub mod Launch
pub mod Peerings
pub mod PeerCheck
pub mod CommandLine
pub mod Sources
pub mod Precedence
pub mod Whitelist
pub mod RoundTrip
