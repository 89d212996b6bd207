-- ===== src/Protocol/Register.antt =====
-- A registration, from the client's request to its answer.
use secure_person2person_p2p.Database.Storage.{Storage}
use secure_person2person_p2p.Database.Spec
use secure_person2person_p2p.Protocol.Wire.{Wire}
