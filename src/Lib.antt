-- ===== src/Lib.antt =====
-- winRemoteControl lets one Windows computer show and control the desktop of another over WebRTC.
-- This library models the parts of its C++ code that decide something by themselves, and leaves the
-- calls of Windows, Qt, libdatachannel and FFmpeg as parameters or out. Paths are from the
-- repository's root.
--
-- The parts and how they interact. The session coordinator (src/session/sessioncoordinator.cpp)
-- drives one session: it moves the session state machine, pairs the two devices, lets the two sides
-- negotiate their capabilities, and shuts the session down. What the peers send goes through queues
-- in front of the data channels. A terminal and the transfer of files run beside the picture: they
-- have frames of their own on the data channels, and the terminal has a helper process that it talks
-- to in frames over a pipe.
--
-- Which file models what.
--   Session.Machine: KSessionStateMachine (src/core/session/sessionstatemachine.cpp), one function
--     for each method, with the queries in Machine.Queries and the texts in Machine.Names.
--     Machine.Run turns the methods into events.
--   Session.Pairing: KPairingTransaction (src/session/pairingtransaction.cpp). Pairing.Phases runs
--     one transaction, Pairing.Agreement two of them over a channel that delays and drops messages.
--   Session.Shutdown: KShutdownCoordinator (src/session/shutdowncoordinator.cpp).
--   Session.Capability: KCapabilityNegotiator (src/core/session/capabilitynegotiator.cpp), and in
--     Capability.Flow KCapabilitySessionFlow (src/session/capabilitysessionflow.cpp).
--   Session.AccessApproval: KAccessApprovalController (src/session/accessapprovalcontroller.cpp).
--   Session.Commands: KSessionCommandDispatcher (src/session/sessioncommanddispatcher.cpp), with the
--     timer in Commands.Timer and the receipt in Commands.Incoming; Commands.Answered runs any calls.
--   Terminal.Relay: the frames between the program and the terminal's process
--     (src/core/terminal/terminalrelayprotocol.h, terminalrelayframecodec.cpp).
--   Terminal.DataFrame and FileTransfer.DataFrame: the frames on the data channels
--     (src/core/protocol/terminaldataframe.cpp, filetransferdataframe.cpp).
--   Terminal.Machine and Terminal.WriteAll: the states of a terminal and the loop that writes to it
--     (src/core/terminal/terminalstatemachine.cpp, terminalwriteall.cpp).
--   Transport.OutboundQueue: KOutboundMessageQueue (src/core/transport/outboundmessagequeue.cpp).
--   Security.FailureTracker and Security.Permissions: KSourceFailureTracker and the permission sets
--     (src/core/security/sourcefailuretracker.cpp, permissionscope.cpp).
--   Media.LatestFrame: KLatestDecodedFrameQueue (src/core/media/latestdecodedframequeue.cpp).
--   Input.MouseRouting: KMouseInputRoutingState (src/core/input/mouseinputroutingstate.cpp).
--   Protocol.Router: KProtocolRouter (src/core/protocol/protocolrouter.cpp).
--   Terminal.Service: KTerminalSessionService (src/terminal/terminalsessionservice.cpp): its data in
--     Service.Types, its methods in Service.Basics, Stopping, Output, Receiving, Opening, Control and
--     Events, and all of them as one machine in Service.Steps. What it calls is the record
--     Surroundings of functions on a world. Service.Kept goes through all methods with an invariant,
--     Service.Stream follows the bytes from the host of one device to the frontend of the other.
--   Terminal.Commands: KTerminalCommandDispatcher (src/terminal/terminalcommanddispatcher.cpp), beside
--     the service, which takes it as a parameter.
--   Session.InputFeedback: KInputFeedbackTracker (src/session/inputfeedbacktracker.cpp).
--   Session.PeerLifecycle: KPeerLifecycleController (src/session/peerlifecyclecontroller.cpp).
--   Qt: what is taken from Qt as it is documented, a record of operations with their facts.
--   Prelude: names of the library, Boolean tests, lists and bytes.
-- The test data and the runs at concrete inputs are in the modules called Tests, next to what they
-- test, and in Qt.Example.
--
-- How the code is written down. A class is a record, a method that changes it returns the new record
-- with the answer, a signal is an element of a list that is returned, and a timer is an event. Bytes
-- are natural numbers below 256, and a machine integer is a natural number with its wrap-around
-- written out where the code computes with it. Null pointers for results are not modelled. An error
-- message is a constructor.
--
-- Bounds and fuel. The loop of the relay decoder gets one more than the size of its buffer: a round
-- takes at least a header, twelve bytes, so it never runs out. The write loop gets one more than the
-- number of bytes: a round that goes on has written at least one. The loop that cuts output into chunks
-- gets the number of bytes. All other loops are structural.
--
-- Not modelled: the coordinator itself and the flows of authentication and access, the service for
-- files above its frames, the JSON messages, capture, codecs,
-- rendering, the WebRTC glue, the adapters, storage, and the user interface. They are mostly calls of libraries and
-- of the system, or compositions of the parts that are modelled here.
pub mod Prelude
pub mod Qt
pub mod Session
pub mod Terminal
pub mod FileTransfer
pub mod Transport
pub mod Security
pub mod Protocol
pub mod Input
pub mod Media
