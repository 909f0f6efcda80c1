-- ===== src/Lib.antt =====
-- dlt-matterbeam: the dlt destination that sends a pipeline's tables to Matterbeam as facts.
--
-- A load job (LoadJob, of src/dlt_matterbeam/load_job.py) reads the file that dlt wrote for a
-- table, strips and sorts its rows (Envelope, of src/dlt_matterbeam/envelope.py), and hands them in
-- numbered chunks to the client (Client, of src/dlt_matterbeam/client.py). The client registers its
-- pipeline once, for a pid, and passes each call on to a transport (Transport, of
-- src/dlt_matterbeam/transport.py): over HTTP, with retries while another run holds the pipeline's
-- lock, or into a directory. Which transport it is comes from the configuration (Configuration, of
-- src/dlt_matterbeam/configuration.py). At the other end, tests/fake_matterbeam/server.py and
-- segment_store.py are the reference server (Server): a registry of processes, an entry lock for
-- each, a ledger of the chunks taken, the ids seen, and the segments committed; Fold, of fold.py
-- beside it, scans the segments and reads a table's current state off their facts. A pipeline can
-- also be deployed to run hosted: Gate, of src/dlt_matterbeam/gate.py, says which scripts may be,
-- and Deploy, of src/dlt_matterbeam/deploy.py, registers it, submits its secrets, uploads its
-- package and follows its build; Cli, of src/dlt_matterbeam/cli.py, is the commands that do so.
-- Destinations, of src/dlt_matterbeam/destinations.py, is what the destination declares to dlt;
-- Sorting is Python's sort by a text key, for the parts that sort. Tests holds a concrete case of
-- each result.
--
-- State is passed explicitly. A call that may raise is an Action (Action.antt): it returns a Result
-- (Exec.antt) and the state that is left, of a raise too. The server's calls return an Outcome,
-- with its own faults. Each function bears the name of the source's, without a leading underscore;
-- the methods of one class share a module (MatterbeamJobClient is Client, HttpTransport is
-- Transport.Http, FakeMatterbeamState is Server with Server.Lock, Server.Registry, Server.Build,
-- Server.State and Server.Ingest, and the HTTP handler Handler is Server.Routes). A World is the
-- server and the count of its requests, as a peer of the transport. Where the client of a
-- deployment opens the URL of an upload, it is the server that has the URL's path. A Python dict
-- with text keys is an association list in insertion order; the server's dicts and sets are
-- functions.
--
-- Parameters: what answers an HTTP request, a function on the state of the peer; dlt's
-- custom_pua_remove and names of secrets; the JSON codec, and the size of a row as JSON; Python's
-- str on the fields of a key; the plugins installed; SHA3 in base64, UTF-8, YAML, gzip and
-- str.lower; the files of a directory and the distributions installed; the script that the gate
-- runs, an action on the process; Python's repr of an exception, the server's host name, and what a
-- client makes of a connection that drops; the clock, random tokens and noise, as arguments of a
-- call or drawn by each request.
--
-- Loops are structural recursion, and no fuel is used but for the count of decimal digits, which is
-- given the number itself: dividing by ten reaches a single digit before that. A file is copied
-- into the archive in as many blocks as its size has. The tries of a request and the attempts of a
-- poll are bounded by the source's own counters.
--
-- Not modelled: numbers of JSON that are not integers; JSON, zstd and gzip as bytes; threads, which
-- are sequences of whole calls; the waits inside the server. A list as a sort key is taken to
-- raise, as a dict does, and ids in requests are texts.
pub mod Prelude
pub mod Json
pub mod Exec
pub mod Envelope
pub mod Action
pub mod LoadJob
pub mod Configuration
pub mod Transport
pub mod Client
pub mod Destinations
pub mod Server
pub mod Fold
pub mod Sorting
pub mod Gate
pub mod Deploy
pub mod Cli
pub mod Tests
