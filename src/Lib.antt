-- ===== src/Lib.antt =====
-- RetroBridge lets its users run programs on old computers: a web application takes uploads into a
-- queue of jobs, a worker daemon sends them over a serial port by XMODEM and records what the machine
-- prints, and a terminal in the browser is bridged to further ports. The parts meet in one SQLite
-- database: the web workers create and cancel jobs, the daemons claim and finish them, and the ports of
-- the terminal are shared by leases that expire.
--
-- The files, and the code that they are about:
--
--   Prelude     numbers, tests, lists and texts: Python's str and bytes as lists of code points
--   Model       retrobridge/models.py: the tables as records, and the statements on them
--   Jobs        retrobridge/jobs/utils.py, with get_tier_limits of retrobridge/integrations/patreon.py
--               and bulk_cancel_jobs of retrobridge/admin/routes.py
--     Quota     get_user_quota, check_rate_limit          Upload   validate_file_content
--     Create    create_job, get_job_or_403                Cancel   cancel_job, bulk_cancel_jobs
--     Output    read_output_tail
--   Worker      worker.py
--     Recover   recover_stale_jobs, _send_heartbeat       Claim    claim_job
--     Commands  _resolve_cmds, _apply_newline, _fd_write  Capture  the loop that records the output
--     Run       run_job_on_device, with its handlers      Loop     a turn of worker_loop
--   Queue       the jobs table under all of these at once: a step is one commit of a web worker,
--               an admin or a daemon, and a history is any sequence of steps; claim_job and the loop
--               over the orphaned jobs are several steps, the turns of a worker a history
--   Transport   retrobridge/transport.py
--     Telnet    _telnet_negotiate                         Socket   _SocketWrapper
--     Open      open_transport, _parse_host_port
--   Security    retrobridge/security.py
--     Store     the two stores of the rate limiter        Client   _client_ip, _check_rate_limit
--   Terminal    retrobridge/terminal/utils.py
--     Leases    port leases, sessions, bridge registry    Bridges  the bridges of one web worker
--     Monitors  the timeouts, and the admin's disconnect  Events   retrobridge/terminal/events.py
--   Accounts    retrobridge/auth/routes.py
--     Throttle  the throttling of logins                  Login    login
--     Patreon   patreon_callback, and get_valid_token and sync_user_tier of
--               retrobridge/integrations/patreon.py
--     Users     register, profile, and create_user and edit_user of retrobridge/admin/routes.py
--   Admin       retrobridge/admin/routes.py, retrobridge/admin/settings_utils.py
--     Tables    the foreign keys of retrobridge/models.py Devices  adding and changing devices and ports
--     Deletion  the cascades of retrobridge/models.py, and the three routes that delete an account
--     Settings  SETTING_MAP, settings, get_int, get_bool  Operations   all of these in any order
--   Simulation  retrobridge/simulation.py
--     Receiver  the two XMODEM receivers                  Terminal the simulated multi-user system
--   Api         retrobridge/api/routes.py
--     Jobs      the list, the output, cancellation        Events   job_events
--     Sessions  disconnect_session, check_username, and bulk_disconnect of retrobridge/admin/routes.py
--   Backup      prune_backups of retrobridge/backup.py, on names without newlines
--
-- How the code is modelled. A table is the list of its rows; an UPDATE or DELETE is a function on that
-- list. An operation is one function call, also where it commits several times: what other processes do
-- between its commits is in the histories of the queue, whose steps are the single commits, and is left
-- out elsewhere. What a step reads before it commits is taken as it is at the commit. A class is a record of its fields, and a method a
-- function from the record to what it returns and the new record. An exception that the program handles
-- is a constructor of the result. What comes from outside (the clock, the socket, the serial port, the
-- modem, a failure of the database) is an argument; where a loop reads from outside, it recurs on the
-- list of what it reads, and what it does when that list ends is a value of its own, never a success.
-- Times are microseconds, as in datetime; a number of seconds is multiplied by `second`. All integers
-- are natural numbers: ids, counters, times and configured limits are never negative here, and the
-- time from one reading of the clock to another is 0 where the clock has gone back.
--
-- Library code stands in the model as arguments: `secure_filename` and the password hashes of werkzeug,
-- `json.loads`, `urlparse` and `urljoin`, the functions of `ipaddress`, the decoding of UTF-8 where whole
-- files are read, what a form's validation finds, and the database's choice of row ids. Of the decoding
-- it is assumed that what stands behind a newline is decoded as if it stood alone; a new row id is one
-- that no row has. Of the others nothing is assumed. SQLAlchemy's cascades are modelled from the
-- relationships as they are declared.
--
-- Fuel occurs in three places: in printing a decimal number, where the number is a bound on its digits;
-- in reading a file from its end, where each turn takes at least one of its bytes; and in the XMODEM
-- receivers, where each turn uses at least one moment of the run.
--
-- Not modelled: the pages and templates, the checks of the forms, mail, the requests to Patreon,
-- encryption, the command line, the configuration, the copies of the database, the texts that the
-- simulated terminal answers with, and within the parts above the threads, the log files and what is emitted to the
-- browser. Changes of a port or a device by an admin during a history of the queue are left out, and so
-- are the deletion of a job and the change of its priority.
pub mod Prelude
pub mod Transport
pub mod Model
pub mod Jobs
pub mod Worker
pub mod Queue
pub mod Security
pub mod Terminal
pub mod Accounts
pub mod Admin
pub mod Simulation
pub mod Api
pub mod Backup
