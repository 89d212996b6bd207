-- ===== src/Protocol/Running.antt =====
-- A transfer as a step of the running server.
use secure_person2person_p2p.Database.Storage.{Storage}
use secure_person2person_p2p.Database.Spec
use secure_person2person_p2p.Server.System.{System}
use secure_person2person_p2p.Protocol.Wire.{Wire}
