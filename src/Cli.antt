-- ===== src/Cli.antt =====
-- The command line interface (cli/src): the registry of deployed contracts by network and alias,
-- the steps of an upgrade by several admins, the upgrade command with its history, the address book,
-- and the pause and unpause commands.
pub mod Names
pub mod Registry
pub mod Multisig
pub mod Upgrade
pub mod Addresses
pub mod Pause
mod Tests
