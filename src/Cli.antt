-- ===== src/Cli.antt =====
-- tulip_cli: what the command line computes by itself.
pub mod AccountPath
