-- ===== src/Lib.antt =====
-- dawos-agent is a FastAPI service that runs beside the accel-ppp daemon of a broadband gateway. Its
-- endpoints check an API key, call a service module, and the services read and write the daemon's
-- configuration file, ask the daemon through the command accel-cmd, or keep state in memory. This library
-- models these parts and proves what they promise each other.
--
-- Rbac: dawos_agent/rbac.py. The keys file and `KeyResolver`. A JSON document enters as its parsed value.
-- Auth: dawos_agent/auth.py. `_require_role` is `require_role`; it uses the resolver of Rbac.
-- ConfigManager: dawos_agent/services/config_manager.py. The globals `_rollback_task` and
--   `_checkpoint_path`, the configuration file and the backup directory are one record `State`; each
--   function is one of the same name that takes and returns the state.
-- Checkpoint: dawos_agent/routers/checkpoint.py. The endpoints over ConfigManager, and in
--   Checkpoint/Steps.antt their interleaving: an apply is split where it awaits the daemon.
-- Events: dawos_agent/events.py. `EventBus` with its subscriber sets and bounded queues.
-- Ws: dawos_agent/routers/ws.py. The handshake, over Rbac, and the control messages, over Events.
-- Retry: dawos_agent/retry.py. `with_retry` with the outcome of each attempt as a function.
-- Playbooks: dawos_agent/services/playbooks.py and dawos_agent/routers/playbooks_router.py, over
--   ConfigManager.
-- Bulk: dawos_agent/services/bulk.py and dawos_agent/routers/bulk_router.py, with the operations of
--   dawos_agent/services/accel.py and dawos_agent/services/traffic.py that they repeat. The daemon is a
--   parameter, any function from commands and its state to answers.
-- EventHandler: dawos_agent/services/event_handler.py and dawos_agent/routers/event_router.py.
-- Audit: the audit middleware of dawos_agent/middleware.py and dawos_agent/routers/audit_router.py.
-- SessionHistory: the queries and the purge of dawos_agent/services/session_history.py.
-- CsvExport: dawos_agent/services/csv_export.py, over SessionHistory.
-- Scheduler: dawos_agent/services/scheduler.py and dawos_agent/routers/scheduler.py. `_jobs` and
--   `_running_tasks` with the asyncio tasks they name; a coroutine goes from one await to the next in one
--   step, and Scheduler/Steps.antt lets all steps interleave.
-- Sections: the scan of accel-ppp.conf line by line that the editors share, and what an edit of lines does
--   to the value that is read.
-- ConnectionLimits: dawos_agent/services/connection_limits.py and dawos_agent/routers/limits_router.py,
--   over Sections, ConfigManager and Checkpoint.
-- IpPool: the pools of dawos_agent/services/ip_pool.py and dawos_agent/routers/ip_pool_router.py, over
--   the same; Constants is the pattern of names of dawos_agent/constants.py.
-- Pppoe: the interfaces of dawos_agent/services/pppoe.py and dawos_agent/routers/pppoe.py, over the same.
-- Shell: `_run` of the services, over a parameter for the commands of the host.
-- Nat: dawos_agent/services/nat.py and the NAT endpoints of dawos_agent/routers/firewall.py, over Shell.
--   What nft does is a set of laws about the table, the map and the chain that it keeps. A sequence of
--   requests is served one after another; Nat/Race.antt has two that overlap between the listing of the
--   chain and the adding of the rule.
-- Conntrack: dawos_agent/services/conntrack.py and dawos_agent/routers/conntrack_router.py, over Shell.
-- ConfigValidator: dawos_agent/services/config_validator.py, and with ConfigManager and Checkpoint the
--   endpoints of dawos_agent/routers/config_router.py.
-- Accel: the readers of the output of accel-cmd in dawos_agent/services/accel.py.
-- Prelude: what they share: results and a monad of state and exceptions, dicts, sets, texts as lists of
--   code points, and ring buffers.
--
-- What the world decides is an argument: time stamps as their texts, whether the daemon answers, how an
-- action or a command ends. An exception is a value, and the state comes back beside it. Each loop runs
-- over a list or over the number of the attempts that are left; only the decimal digits of n are made
-- on fuel, n + 1, and they are proved to be read back as n. Numbers are Python's unbounded ones: natural
-- where the code keeps them from being negative, integers where it reads them from an output. Letters
-- change case in ASCII only. A command of the host that is run through Shell is given by its arguments,
-- and a theorem about its effect has that effect as a hypothesis, which Tests fill with a concrete host.
--
-- Not modelled: the log lines and metrics, file sizes and times, unified diffs, the push of events over
-- a socket, snapshots and statistics of the history, the editors of the PADO delay and of the PPPoE
-- options, the firewall, routing and network services, which mostly build commands, and the
-- declarations of request and response models.
mod Prelude
pub mod Rbac
pub mod Auth
pub mod ConfigManager
pub mod Checkpoint
pub mod Events
pub mod Ws
pub mod Retry
pub mod Playbooks
pub mod Bulk
pub mod EventHandler
pub mod Audit
pub mod SessionHistory
pub mod CsvExport
pub mod Sections
pub mod ConnectionLimits
pub mod Constants
pub mod IpPool
pub mod Pppoe
pub mod Scheduler
pub mod Shell
pub mod Nat
pub mod ConfigValidator
pub mod Accel
pub mod Conntrack
