-- ===== src/Tests.antt =====
-- Runs of the model on concrete inputs, and the theorems at inputs that meet their hypotheses.
mod Data
mod Tunnels
mod Goroutines
mod Races
mod Keys
mod Peerings
mod Probes
mod Streams
mod Failovers
mod Reports
mod Logs
mod Plugins
mod Starts
mod Servers
mod Launches
mod Addresses
mod Identities
